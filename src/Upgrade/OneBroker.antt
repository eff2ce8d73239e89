-- ===== src/Upgrade/OneBroker.antt =====
-- services/upgrade_manager.py: the upgrade of one broker takes it through every stage of
-- Upgrade/Stages, or fails without a step taken too early.
use tantor_v.Prelude.{String, refl, inl, Bool, true, false, Option, List, ◌∷◌}
use tantor_v.Prelude.Exec.{
  Post-both, Triple, Triple-pure, Triple-raise, Triple-bind, Triple-then, Triple-either,
  Triple-before,
}
use tantor_v.Models.{Service, Host}
use tantor_v.Remote.{Machines, succeeded, Triple-exec_command, Triple-sleep, Triple-connect}
use tantor_v.Upgrade.Defs.{
  Command, stop, start, backup_install, backup_config, restore_config, fix_ownership, extract,
  remove_temp, put, W,
}
use tantor_v.Upgrade.Repo.{Tarball}
use tantor_v.Upgrade.Broker.{
  stop_broker, backup_broker, upload, replace_installation, start_broker, settle_broker,
  upgrade_connected,
}
use tantor_v.Upgrade.Stages.{
  Progress, idle, stopped, restored, started, on_save_self, on_extract_self, on_restore_self,
  on_start_self,
}
use tantor_v.Upgrade.Steps.{In, Failing, Triple-aside, Triple-log, Triple-other, Triple-must}
use tantor_v.Upgrade.Waits.{Verdict, Rising-Failing, await_healthy-Triple, await_isr-Triple}

module _ (cluster_id : String) (version : Option String) (net : Machines Command) (svc : Service)
    (host : Host) (done : List String) where
  abbrev InV : Progress → W → Type 0
  InV = In cluster_id version

  abbrev FailingV : W → Type 0
  FailingV = Failing cluster_id version

  stop_broker-Triple :
      Triple
        (InV (done, idle))
        (stop_broker svc net host)
        (λ _. InV (done, stopped host.id))
        FailingV
  unfolding stop_broker
  stop_broker-Triple = Triple-then (Triple-log cluster_id version _ _) (
      Triple-bind _ _
        (Triple-exec_command net host stop λ w r h.
          Post-both (InV (done, stopped host.id)) FailingV r _ (rw h.0 refl, h.1) (rw h.0 tt, h.1))
        λ r.
          Triple-then
            (Triple-either _ _ _ (Triple-log cluster_id version _ _)
              (Triple-log cluster_id version _ _))
            (Triple-then (Triple-aside cluster_id version _ _ (λ d. refl))
              (Triple-sleep 3 (λ w h. h))))

  backup_broker-Triple :
      Triple
        (InV (done, stopped host.id))
        (backup_broker svc net host)
        (λ _. InV (done, stopped host.id))
        FailingV
  unfolding backup_broker
  backup_broker-Triple = Triple-then (Triple-log cluster_id version _ _) (
      Triple-bind _ _ (Triple-other cluster_id version net host backup_install _ (λ r. refl) tt)
        λ r.
          Triple-either _ _ _ (Triple-log cluster_id version _ _)
            (Triple-log cluster_id version _ _))

  upload-Triple :
      (tarball : Tarball)
      → Triple
          (InV (done, stopped host.id))
          (upload svc net host tarball)
          (λ _. InV (done, stopped host.id))
          FailingV
  unfolding upload
  upload-Triple tarball = Triple-then (Triple-log cluster_id version _ _) (
      Triple-bind _ _
        (Triple-other cluster_id version net host (put tarball.path tarball.filename) _ (λ r. refl)
          tt)
        λ r. Triple-log cluster_id version _ _)

  replace_installation-Triple :
      (tarball : Tarball) (target : String)
      → Triple
          (InV (done, stopped host.id))
          (replace_installation svc net host tarball target)
          (λ _. InV (done, restored host.id))
          FailingV
  unfolding replace_installation
  replace_installation-Triple tarball target = Triple-then (Triple-log cluster_id version _ _) (
      Triple-must cluster_id version net host svc _ _ backup_config _ _ _
        (λ r. on_save_self host.id done (succeeded r)) (λ e. refl) tt
        (Triple-then (Triple-log cluster_id version _ _) (
          Triple-then (Triple-log cluster_id version _ _) (
            Triple-must cluster_id version net host svc _ _ (extract tarball.filename target) _ _ _
              (λ r. on_extract_self host.id done (succeeded r))
              (λ e. on_extract_self host.id done false) tt
              (Triple-then (Triple-log cluster_id version _ _) (
                Triple-then (Triple-log cluster_id version _ _) (
                  Triple-must cluster_id version net host svc _ _ restore_config _ _ _
                    (λ r. on_restore_self host.id done (succeeded r)) (λ e. refl) tt
                    (Triple-then (Triple-log cluster_id version _ _) (
                      Triple-bind _ _
                        (Triple-other cluster_id version net host (remove_temp tarball.filename) _
                          (λ r. refl) tt)
                        λ _.
                          Triple-bind _ _
                            (Triple-other cluster_id version net host fix_ownership _ (λ r. refl)
                              tt)
                            λ _. Triple-pure _ (λ w h. h))))))))))

  start_broker-Triple :
      Triple
        (InV (done, restored host.id))
        (start_broker svc net host)
        (λ _. InV (done, started host.id))
        FailingV
  unfolding start_broker
  start_broker-Triple = Triple-then (Triple-log cluster_id version _ _) (
      Triple-must cluster_id version net host svc _ _ start _ _ _
        (λ r. on_start_self host.id done (succeeded r)) (λ e. on_start_self host.id done false) tt
        (Triple-log cluster_id version _ _))

  settle_broker-Triple :
      (b : Bool)
      → Triple
          (Verdict cluster_id version net svc host done b)
          (settle_broker svc net host b)
          (λ _. InV (host.id ∷ done, idle))
          FailingV
  unfolding settle_broker
  settle_broker-Triple false =
      Triple-raise _ (λ w h. Rising-Failing cluster_id version net svc host done w h)
  settle_broker-Triple true = Triple-then (Triple-log cluster_id version _ _) (
      Triple-then (Triple-aside cluster_id version _ _ (λ d. refl)) (
        Triple-then (Triple-log cluster_id version _ _) (
          Triple-bind _ _
            (await_isr-Triple cluster_id version net svc host done _ tt (λ r. refl) 24 0)
            λ b.
              Triple-either b _ _ (Triple-log cluster_id version _ _)
                (Triple-log cluster_id version _ _))))

  -- One broker goes through all stages, and then it is the latest that is done.
  pub upgrade_connected-Triple :
      (tarball : Tarball) (target : String)
      → Triple
          (InV (done, idle))
          (upgrade_connected svc net host tarball target)
          (λ _. InV (host.id ∷ done, idle))
          FailingV
  unfolding upgrade_connected
  upgrade_connected-Triple tarball target =
      Triple-then
        (Triple-connect {R = λ _. InV (done, idle)} net host
          λ w r h. Post-both (InV (done, idle)) FailingV r w h (rw h.0 tt, h.1))
        (Triple-then stop_broker-Triple (
          Triple-then backup_broker-Triple (
            Triple-then (upload-Triple tarball) (
              Triple-then (replace_installation-Triple tarball target) (
                Triple-then start_broker-Triple (
                  Triple-then (Triple-log cluster_id version _ _) (
                    Triple-bind _ _
                      (Triple-before (λ w h. (inl h.0, h.1))
                        (await_healthy-Triple cluster_id version net svc host done 30 0))
                      settle_broker-Triple)))))))
