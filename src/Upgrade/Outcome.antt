-- ===== src/Upgrade/Outcome.antt =====
-- services/upgrade_manager.py: how an upgrade can end, the upgrades of the brokers one after the
-- other, and the steps behind them.
use tantor_v.Prelude.{
  ℕ, ◌+◌, String, ◌≡◌, refl, sym, Option, none, some, List, [], ◌∷◌, map, onto, true,
}
use tantor_v.Prelude.Sort.{sort_by}
use tantor_v.Prelude.Exec.{
  Triple, Triple-pure, Triple-raise, Triple-bind, Triple-then, Triple-either, Triple-after,
  Triple-option,
}
use tantor_v.Models.{Cluster, Service, Host, find_host, find_host-id, find_cluster}
use tantor_v.Remote.{Machines, Triple-on_db}
use tantor_v.Upgrade.Defs.{Command, Task, W, on_task, brokers_of}
use tantor_v.Upgrade.Repo.{Tarball}
use tantor_v.Upgrade.Run.{upgrade_broker, upgrade_brokers, update_cluster, conclude}
use tantor_v.Upgrade.Stages.{idle, progress}
use tantor_v.Upgrade.Steps.{version_of, In, Failing, Triple-log}
use tantor_v.Upgrade.OneBroker.{upgrade_connected-Triple}
use tantor_v.Upgrade.Harmless.{Still, log-Still, verify_brokers-Still}
use tantor_v.Upgrade.Rows.{find_cluster-update_cluster, version_of-found}

-- Of a task that is not in the table nothing is asked.
abbrev pub HasStatus : String → Option Task → Type 0
HasStatus status none = Unit
HasStatus status (some t) = t.status ≡ status

-- The row of the cluster says that it runs the version.
abbrev pub Runs : String → String → List Cluster → Type 0
Runs cluster_id version clusters =
    (c : Cluster) × (find_cluster cluster_id clusters ≡ some c)
    × (c.kafka_version ≡ version)
    × (c.state ≡ "running")

-- All brokers on these hosts are done, the latest first.
abbrev pub Completed : String → String → List String → W → Type 0
Completed cluster_id target done w =
    HasStatus "completed" w.db.task
    × (progress w.trace ≡ (done, idle))
    × Runs cluster_id target w.db.clusters

-- No step was taken too early, and the row keeps its version.
abbrev pub Failed : String → String → W → Type 0
Failed cluster_id version w = HasStatus "failed" w.db.task × Failing cluster_id (some version) w

-- The hosts of the brokers in the order of their nodes, in front of those that were done.
abbrev pub done_after : String → List Service → List String → List String
done_after cluster_id services done =
    onto (map (λ s. s.host_id) (sort_by (λ s. s.node_id) (brokers_of cluster_id services))) done

pub on_task-HasStatus :
    (o : Option Task) (f : Task → Task) (status : String)
    → ((t : Task) → (f t).status ≡ status)
    → HasStatus status (on_task f o)
on_task-HasStatus none f status e = tt
on_task-HasStatus (some t) f status e = e t

HasStatus-on_task :
    (o : Option Task) (f : Task → Task) (status : String)
    → ((t : Task) → (f t).status ≡ t.status)
    → HasStatus status o
    → HasStatus status (on_task f o)
HasStatus-on_task none f status e h = tt
HasStatus-on_task (some t) f status e h = rw (e t) h

module _ (cluster_id : String) (version target : String) where
  abbrev pub V : Option String
  V = some version

  module _ (net : Machines Command) (hosts : List Host) (tarball : Tarball) where
    upgrade_broker-Triple :
        (total number : ℕ) (svc : Service) (done : List String)
        → Triple
            (In cluster_id V (done, idle))
            (upgrade_broker net hosts tarball target total number svc)
            (λ _. In cluster_id V (svc.host_id ∷ done, idle))
            (Failing cluster_id V)
    unfolding upgrade_broker
    upgrade_broker-Triple total number svc done =
        Triple-option (find_host svc.host_id hosts) _ _
          (λ _. Triple-raise _ (λ w h. (rw h.0 tt, h.1)))
          (λ host e. Triple-then (Triple-log cluster_id V _ _) (
            Triple-then (Triple-log cluster_id V _ _) (
              Triple-then (upgrade_connected-Triple cluster_id V net svc host done tarball target) (
                Triple-then (Triple-log cluster_id V _ _) (
                  Triple-after _ (λ _ w h. rw (sym (find_host-id svc.host_id hosts host e)) h)
                    (λ w h. h) (Triple-log cluster_id V _ _))))))

    pub upgrade_brokers-Triple :
        (total idx : ℕ) (services : List Service) (done : List String)
        → Triple
            (In cluster_id V (done, idle))
            (upgrade_brokers net hosts tarball target total idx services)
            (λ _. In cluster_id V (onto (map (λ s. s.host_id) services) done, idle))
            (Failing cluster_id V)
    unfolding upgrade_brokers
    upgrade_brokers-Triple total idx [] done = Triple-pure _ (λ w h. h)
    upgrade_brokers-Triple total idx (svc ∷ rest) done =
        Triple-then (upgrade_broker-Triple total (idx + 1) svc done)
          (upgrade_brokers-Triple total (idx + 1) rest (svc.host_id ∷ done))

  Runs-after :
      (clusters : List Cluster)
      → version_of cluster_id clusters ≡ V
      → Runs cluster_id target (
          update_cluster cluster_id
            (λ c. record c { kafka_version = target; state = "running" })
            clusters)
  Runs-after clusters e =
      let (c, found) = version_of-found cluster_id clusters version e in
      (_, find_cluster-update_cluster cluster_id _ clusters c (λ k. refl) found, refl, refl)

  pub conclude-Triple :
      (net : Machines Command) (hosts : List Host) (services : List Service) (done : List String)
      → Triple
          (In cluster_id V (done, idle))
          (conclude net hosts cluster_id target services)
          (λ _. Completed cluster_id target done)
          (λ w. ⊥)
  unfolding conclude
  conclude-Triple net hosts services done =
      let Q : List Cluster → List Service → Type 0 = λ C S. Runs cluster_id target C in
      Triple-then {Q = In cluster_id V (done, idle)} (Triple-on_db _ (λ w h. h)) (
        Triple-then {Q = Still done Q} (Triple-on_db _ (λ w h. (h.0, Runs-after w.db.clusters h.1)))
          (Triple-then (log-Still done Q _) (
            Triple-then (log-Still done Q _) (
              Triple-then (log-Still done Q _) (
                Triple-bind _ _ (verify_brokers-Still done Q net hosts true services) λ verified.
                  Triple-then (Triple-either _ _ _ (log-Still done Q _) (log-Still done Q _)) (
                    Triple-then {Q = Completed cluster_id target done}
                      (Triple-on_db _
                        (λ w h. (on_task-HasStatus w.db.task _ "completed" (λ t. refl), h.0, h.1)))
                      (Triple-on_db _ (λ w h. (
                        HasStatus-on_task w.db.task _ "completed" (λ t. refl) h.0,
                        h.1,
                        h.2,
                      )))))))))
