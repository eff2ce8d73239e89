-- ===== src/Upgrade/Harmless.antt =====
-- services/upgrade_manager.py: the checks before an upgrade and the verification after it take no
-- step of the upgrade and change no row.
use tantor_v.Prelude.{
  ℕ, String, ◌≡◌, refl, Bool, true, false, Option, none, some, List, [], ◌∷◌, ◌==◌, if◌then◌else◌,
}
use tantor_v.Prelude.Exec.{
  Result, Triple-gets, Post-both, Triple, Triple-pure, Triple-raise, Triple-bind, Triple-then,
  Triple-either, Triple-try, Triple-after, Triple-option,
}
use tantor_v.Models.{Cluster, Service, Host, find_host}
use tantor_v.Remote.{
  ran, connect, Machines, Reply, exec_command, Triple-exec_command, Triple-on_db, Triple-connect,
}
use tantor_v.Upgrade.Defs.{
  Command, is_active, under_replicated, zookeeper_controller, kraft_metadata, Task, W, update_task,
}
use tantor_v.Upgrade.Checks.{Site}
use tantor_v.Upgrade.PreCheck.{
  running_broker_host, look_at_broker, check_brokers, check_broker_health, check_isr,
  check_controller, check_cluster, pre_upgrade_check,
}
use tantor_v.Upgrade.Run.{look_again, verify_broker, verify_brokers}
use tantor_v.Upgrade.Stages.{idle, observe, progress}

module _ (done : List String) (Q : List Cluster → List Service → Type 0) where
  -- No broker is down, and the rows are as `Q` says.
  abbrev pub Still : W → Type 0
  Still w = (progress w.trace ≡ (done, idle)) × Q w.db.clusters w.db.services

  pub log-Still : (f : Task → Task) → Triple Still (update_task f) (λ _. Still) (λ w. ⊥)
  log-Still f = Triple-on_db _ (λ w h. h)

  module _ (net : Machines Command) where
    connect-Still : (host : Host) → Triple Still (connect net host) (λ _. Still) Still
    connect-Still host =
        Triple-connect {R = λ _. Still} net host (λ w r h. Post-both Still Still r w h h)

    ask-Still :
        (host : Host) (c : Command)
        → ((r : Result Reply) → observe (done, idle) (ran host c r) ≡ (done, idle))
        → Triple Still (exec_command net host c) (λ _. Still) Still
    ask-Still host c same = Triple-exec_command net host c λ w r h.
        let w' : W = record w { trace = ran host c r ∷ w.trace } in
        let h' : Still w' = (rw (h.0, same r) refl, h.1) in Post-both Still Still r w' h' h'

    look_at_broker-Still :
        (node_id : ℕ) (host : Host)
        → Triple Still (look_at_broker net node_id host) (λ _. Still) (λ w. ⊥)
    unfolding look_at_broker
    look_at_broker-Still node_id host =
        Triple-try _ _
          (Triple-then (connect-Still host)
            (Triple-bind _ _ (ask-Still host is_active (λ r. refl)) λ r. Triple-pure _ (λ w h. h)))
          λ e. Triple-pure _ (λ w h. h)

    check_brokers-Still :
        (hosts : List Host) (services : List Service)
        → Triple Still (check_brokers net hosts services) (λ _. Still) (λ w. ⊥)
    unfolding check_brokers
    check_brokers-Still hosts [] = Triple-pure _ (λ w h. h)
    check_brokers-Still hosts (svc ∷ rest) =
        Triple-option (find_host svc.host_id hosts) _ _
          (λ _. Triple-bind _ _ (check_brokers-Still hosts rest) (λ x. Triple-pure _ (λ w h. h)))
          (λ host _.
            Triple-bind _ _ (look_at_broker-Still svc.node_id host)
              λ b. Triple-bind _ _ (check_brokers-Still hosts rest) (λ x. Triple-pure _ (λ w h. h)))

    check_broker_health-Still :
        (hosts : List Host) (services : List Service)
        → Triple Still (check_broker_health net hosts services) (λ _. Still) (λ w. ⊥)
    unfolding check_broker_health
    check_broker_health-Still hosts [] = Triple-pure _ (λ w h. h)
    check_broker_health-Still hosts (svc ∷ rest) =
        Triple-bind _ _ (check_brokers-Still hosts (svc ∷ rest)) (λ x. Triple-pure _ (λ w h. h))

    check_isr-Still : (host : Option Host) → Triple Still (check_isr net host) (λ _. Still) (λ w. ⊥)
    unfolding check_isr
    check_isr-Still none = Triple-pure _ (λ w h. h)
    check_isr-Still (some host) =
        Triple-try _ _
          (Triple-then (connect-Still host) (
            Triple-bind _ _ (ask-Still host under_replicated (λ r. refl))
              λ r. Triple-pure _ (λ w h. h)))
          λ e. Triple-pure _ (λ w h. h)

    controller_command_lem :
        (host : Host) (uuid : String) (b : Bool) (r : Result Reply)
        → observe
            (done, idle)
            (ran host (if b then kraft_metadata uuid else zookeeper_controller) r)
          ≡ (done, idle)
    controller_command_lem host uuid true r = refl
    controller_command_lem host uuid false r = refl

    check_controller-Still :
        (cluster : Cluster) (host : Option Host)
        → Triple Still (check_controller net cluster host) (λ _. Still) (λ w. ⊥)
    unfolding check_controller
    check_controller-Still cluster none = Triple-pure _ (λ w h. h)
    check_controller-Still cluster (some host) =
        Triple-try _ _
          (Triple-then (connect-Still host) (
            Triple-bind _ _
              (ask-Still host _ (controller_command_lem host _ (cluster.mode == "kraft")))
              λ r. Triple-pure _ (λ w h. h)))
          λ e. Triple-pure _ (λ w h. h)

    look_again-Still :
        (svc : Service) (host : Host) → Triple Still (look_again net svc host) (λ _. Still) Still
    unfolding look_again
    look_again-Still svc host = Triple-then (connect-Still host) (
        Triple-bind _ _ (ask-Still host is_active (λ r. refl)) λ r.
          Triple-either _ _ _
            (Triple-then (Triple-on_db {R = λ _. Still} _ (λ w h. h)) (Triple-pure _ (λ w h. h)))
            (Triple-then (Triple-on_db {R = λ _. Still} _ (λ w h. h)) (Triple-pure _ (λ w h. h))))

    verify_broker-Still :
        (svc : Service) (host : Host)
        → Triple Still (verify_broker net svc host) (λ _. Still) (λ w. ⊥)
    unfolding verify_broker
    verify_broker-Still svc host =
        Triple-try _ _ (look_again-Still svc host)
          λ e. Triple-then (log-Still _) (Triple-pure _ (λ w h. h))

    pub verify_brokers-Still :
        (hosts : List Host) (verified : Bool) (services : List Service)
        → Triple Still (verify_brokers net hosts verified services) (λ _. Still) (λ w. ⊥)
    unfolding verify_brokers
    verify_brokers-Still hosts verified [] = Triple-pure _ (λ w h. h)
    verify_brokers-Still hosts verified (svc ∷ rest) =
        Triple-option (find_host svc.host_id hosts) _ _
          (λ _. verify_brokers-Still hosts verified rest)
          (λ host _.
            Triple-bind _ _ (verify_broker-Still svc host)
              λ fine. verify_brokers-Still hosts _ rest)

  module _ {V : Type 0} (site : Site V) (hosts : List Host) where
    check_cluster-Still :
        (cluster : Cluster) (target : String) (services : List Service)
        → Triple Still (check_cluster site hosts cluster target services) (λ _. Still) (λ w. ⊥)
    unfolding check_cluster
    check_cluster-Still cluster target services =
        Triple-bind _ _ (Triple-gets {R = λ _. Still} _ (λ w h. h)) λ files.
          Triple-bind _ _ (check_broker_health-Still site.net hosts services) λ c3.
            Triple-bind _ _ (check_isr-Still site.net (running_broker_host hosts services)) λ c4.
              Triple-bind _ _
                (check_controller-Still site.net cluster (running_broker_host hosts services))
                λ c5. Triple-pure _ (λ w h. h)

    pub pre_upgrade_check-Still :
        (cluster_id target : String)
        → Triple Still (pre_upgrade_check site hosts cluster_id target) (λ _. Still) Still
    unfolding pre_upgrade_check
    pre_upgrade_check-Still cluster_id target =
        Triple-bind _ _ (Triple-gets {R = λ _. Still} _ (λ w h. h)) λ cluster.
          Triple-bind _ _ (Triple-gets {R = λ _. Still} _ (λ w h. h)) λ services.
            Triple-option cluster _ _ (λ _. Triple-raise _ (λ w h. h))
              (λ c _.
                Triple-after _ (λ r w h. h) (λ w h. absurd h)
                  (check_cluster-Still c target services))
