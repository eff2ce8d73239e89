-- ===== src/Restart/OneByOne.antt =====
-- One service of a rolling restart, and the whole run, seen by the onlooker of Restart/Phase.
use tantor_v.Prelude.{
  ℕ, String, ◌≡◌, refl, inl, inr, ◌+◌, ◌⊎◌, length, Bool, true, false, List, [], ◌∷◌, Option, none,
  some, All,
}
use tantor_v.Prelude.Exec.{
  Failure, pure, ◌>>=◌, ◌>>◌, Post-both, Triple, Triple-pure, Triple-bind, Triple-if, Triple-try,
}
use tantor_v.Models.{Cluster, Service, Host, find_host}
use tantor_v.ClusterPaths.{Settings, install_dir}
use tantor_v.Remote.{Machines, succeeded, Triple-on_db, Triple-connect}
use tantor_v.Prelude.Text.{concat}
use tantor_v.Restart.Defs.{log, Command, W, is_broker, cluster_listener_port}
use tantor_v.Restart.Managed.{
  Flow, next, halt, unit_for_service, recover_isr, conclude, bring_up, restart_connected,
  service_failed, restart_service,
}
use tantor_v.Restart.Run.{restart_numbered, restart_services, finish, restart_sorted}
use tantor_v.Restart.Phase.{stopping, IsSettled-IsIntact, At, Intact, Settled}
use tantor_v.Restart.Safety.{shut_down-Triple}
use tantor_v.Restart.Health.{
  Rising, Verdict, check_broker_health-Triple, wait_for_isr-Triple, start-Triple,
  await_healthy-Triple,
}

-- Where the loop goes on, every unit is back; where it halts, none was stopped too early and the
-- task is in error.
abbrev pub Failed : Bool → W → Type 0
Failed strict w = (w.db.task.status ≡ "error") × Intact strict w

abbrev pub Goes : Bool → Flow → W → Type 0
Goes strict next w = Settled strict w
Goes strict halt w = Failed strict w

-- A strict onlooker wants brokers only.
abbrev pub MayCheck : Bool → Service → Type 0
MayCheck strict svc = is_broker svc.role ≡ false → strict ≡ false

module _ (net : Machines Command) (settings : Settings) (strict : Bool) (cluster : Cluster)
    (svc : Service) (host : Host) (fits : MayCheck strict svc) where
  recover_isr-Triple :
      Triple
        (Settled strict)
        (recover_isr net settings cluster svc host)
        (λ _. Settled strict)
        (Intact strict)
  unfolding recover_isr
  recover_isr-Triple =
      Triple-if (is_broker svc.role) _ _
        (λ _. Triple-bind _ _ (Triple-on_db _ (λ w h. h)) λ _.
          Triple-bind _ _
            (wait_for_isr-Triple net strict host 24 (install_dir settings cluster)
              (cluster_listener_port cluster))
            λ _. Triple-on_db _ (λ w h. h))
        (λ _. Triple-pure _ (λ w h. h))

  conclude-Triple :
      (good : Bool)
      → Triple
          (Verdict strict host.id (unit_for_service cluster svc) good)
          (conclude net settings cluster svc host good)
          (Goes strict)
          (Intact strict)
  unfolding conclude
  conclude-Triple true = Triple-bind _ _ (Triple-on_db {R = λ _. Settled strict} _ (λ w h. h)) λ _.
      Triple-bind _ _ (Triple-on_db {R = λ _. Settled strict} _ (λ w h. h)) λ _.
        Triple-bind _ _ recover_isr-Triple λ _.
          Triple-bind _ _ (Triple-on_db {R = λ _. Settled strict} _ (λ w h. h))
            λ _. Triple-pure _ (λ w h. h)
  conclude-Triple false = Triple-bind _ _ (Triple-on_db {R = λ _. Intact strict} _ rising) λ _.
      Triple-bind _ _ (Triple-on_db {R = λ _. Intact strict} _ (λ w h. h)) λ _.
        Triple-bind _ _ (Triple-on_db {R = λ _. Failed strict} _ (λ w h. (refl, h))) λ _.
          Triple-bind _ _ (Triple-on_db {R = λ _. Failed strict} _ (λ w h. h))
            λ _. Triple-pure _ (λ w h. h)
    where
      rising : (w : W) → Rising strict host.id (unit_for_service cluster svc) w → Intact strict w
      rising w (inl e) = rw e tt
      rising w (inr e) = rw e tt

  bring_up-Triple :
      Triple
        (At strict (stopping host.id (unit_for_service cluster svc)))
        (bring_up net settings cluster svc host (unit_for_service cluster svc))
        (Goes strict)
        (Intact strict)
  unfolding bring_up
  bring_up-Triple = Triple-bind _ _ (Triple-on_db _ (λ w h. h)) λ _.
      Triple-bind _ _ (start-Triple net strict host (unit_for_service cluster svc)) λ r.
        Triple-if (succeeded r) _ _
          (λ e.
            Triple-bind _ _
              (Triple-on_db {R = λ _. Rising strict host.id (unit_for_service cluster svc)} _
                (λ w h. inl (rw e at h)))
              λ _.
                Triple-bind _ _
                  (await_healthy-Triple net strict host (unit_for_service cluster svc)
                    (is_broker svc.role) fits 60 (cluster_listener_port cluster))
                  conclude-Triple)
          (λ e.
            Triple-bind _ _ (Triple-on_db {R = λ _. Intact strict} _ (λ w h. down w (rw e at h)))
              λ _.
                Triple-bind _ _ (Triple-on_db {R = λ _. Failed strict} _ (λ w h. (refl, h)))
                  λ _. Triple-pure _ (λ w h. h))
    where
      down :
          (w : W) → At strict (stopping host.id (unit_for_service cluster svc)) w → Intact strict w
      down w e = rw e tt

  restart_connected-Triple :
      Triple
        (Settled strict)
        (restart_connected net settings cluster svc host)
        (Goes strict)
        (Intact strict)
  unfolding restart_connected
  restart_connected-Triple =
      Triple-bind _ _
        (Triple-connect net host (λ w r h.
          Post-both (Settled strict) (Intact strict) r w h (IsSettled-IsIntact strict _ h)))
        λ _. Triple-bind _ _ (Triple-on_db _ (λ w h. h)) λ _.
          Triple-bind _ _
            (check_broker_health-Triple net strict host svc.role (install_dir settings cluster)
              (cluster_listener_port cluster))
            λ good.
              Triple-bind _ _
                (Triple-if good _ _ (λ _. Triple-pure _ (λ w h. h))
                  (λ _. Triple-on_db _ (λ w h. h)))
                λ _.
                  Triple-bind _ _ (shut_down-Triple net strict host (unit_for_service cluster svc))
                    λ _. bring_up-Triple

  service_failed-Triple :
      (e : Failure)
      → Triple
          (Intact strict)
          (service_failed net settings cluster svc host e)
          (Goes strict)
          (Intact strict)
  unfolding service_failed
  service_failed-Triple e =
      Triple-bind _ _ (Triple-on_db {R = λ _. Intact strict} _ (λ w h. h)) λ _.
        Triple-bind _ _ (Triple-on_db {R = λ _. Intact strict} _ (λ w h. h)) λ _.
          Triple-bind _ _ (Triple-on_db {R = λ _. Failed strict} _ (λ w h. (refl, h))) λ _.
            Triple-bind _ _ (Triple-on_db {R = λ _. Failed strict} _ (λ w h. h))
              λ _. Triple-pure _ (λ w h. h)

  pub restart_service-Triple :
      Triple
        (Settled strict)
        (restart_service net settings cluster svc host)
        (Goes strict)
        (Intact strict)
  unfolding restart_service
  restart_service-Triple = Triple-try _ _ restart_connected-Triple service_failed-Triple

-- How a run ends: completed with every unit back, or in error with no unit stopped too early.
abbrev pub Ended : Bool → W → Type 0
Ended strict w = ((w.db.task.status ≡ "completed") × Settled strict w) ⊎ Failed strict w

module _ (net : Machines Command) (settings : Settings) (strict : Bool) (cluster : Cluster)
    (hosts : List Host) where
  restart_numbered-Triple :
      (total idx : ℕ) (svc : Service) (host : Host)
      → MayCheck strict svc
      → Triple
          (Settled strict)
          (restart_numbered net settings cluster total idx svc host)
          (Goes strict)
          (Intact strict)
  unfolding restart_numbered
  restart_numbered-Triple total idx svc host fits = Triple-bind _ _ (Triple-on_db _ (λ w h. h)) λ _.
      Triple-bind _ _ (Triple-on_db _ (λ w h. h))
        λ _. restart_service-Triple net settings strict cluster svc host fits

  pub restart_services-Triple :
      (total idx : ℕ) (services : List Service)
      → All (MayCheck strict) services
      → Triple
          (Settled strict)
          (restart_services net settings cluster hosts total idx services)
          (Goes strict)
          (Intact strict)
  unfolding restart_services
  restart_services-Triple total idx [] fits = Triple-pure _ (λ w h. h)
  restart_services-Triple total idx (svc ∷ rest) fits =
      pass (find_host svc.host_id hosts) (restart_services-Triple total (idx + 1) rest fits.1)
    where
      go_on :
          Triple
            (Settled strict)
            (restart_services net settings cluster hosts total (idx + 1) rest)
            (Goes strict)
            (Intact strict)
          → (flow : Flow)
          → Triple
              (Goes strict flow)
              (elim flow [
                | next ↦ restart_services net settings cluster hosts total (idx + 1) rest
                | halt ↦ pure halt
              ])
              (Goes strict)
              (Intact strict)
      go_on t next = t
      go_on t halt = Triple-pure _ (λ w h. h)

      pass :
          (found : Option Host)
          → Triple
              (Settled strict)
              (restart_services net settings cluster hosts total (idx + 1) rest)
              (Goes strict)
              (Intact strict)
          → Triple
              (Settled strict)
              (elim found [
                | none ↦
                    log (concat ("⚠ Skipping service " ∷ svc.id ∷ " — host not found" ∷ []))
                    >> restart_services net settings cluster hosts total (idx + 1) rest
                | some host ↦ restart_numbered net settings cluster total idx svc host >>= λ flow.
                    elim flow [
                      | next ↦ restart_services net settings cluster hosts total (idx + 1) rest
                      | halt ↦ pure halt
                    ]
              ])
              (Goes strict)
              (Intact strict)
      pass none t = Triple-bind _ _ (Triple-on_db _ (λ w h. h)) (λ _. t)
      pass (some host) t =
          Triple-bind _ _ (restart_numbered-Triple total idx svc host fits.0) (go_on t)

  finish-Triple :
      (total : ℕ) (flow : Flow)
      → Triple
          (Goes strict flow)
          (finish net settings total flow)
          (λ _. Ended strict)
          (Intact strict)
  unfolding finish
  finish-Triple total halt = Triple-pure _ (λ w h. inr h)
  finish-Triple total next =
      Triple-bind _ _ (Triple-on_db {R = λ _. Settled strict} _ (λ w h. h)) λ _.
        Triple-bind _ _ (Triple-on_db {R = λ _. Settled strict} _ (λ w h. h)) λ _.
          Triple-bind _ _ (Triple-on_db {R = λ _. Settled strict} _ (λ w h. h))
            λ _. Triple-on_db _ (λ w h. inl (refl, h))

  pub restart_sorted-Triple :
      (scope : String) (services : List Service)
      → All (MayCheck strict) services
      → Triple
          (Settled strict)
          (restart_sorted net settings cluster scope hosts services)
          (λ _. Ended strict)
          (Intact strict)
  unfolding restart_sorted
  restart_sorted-Triple scope services fits =
      Triple-bind _ _ (Triple-on_db {R = λ _. Settled strict} _ (λ w h. h)) λ _.
        Triple-bind _ _ (Triple-on_db {R = λ _. Settled strict} _ (λ w h. h)) λ _.
          Triple-bind _ _ (Triple-on_db {R = λ _. Settled strict} _ (λ w h. h)) λ _.
            Triple-bind _ _ (Triple-on_db {R = λ _. Settled strict} _ (λ w h. h)) λ _.
              Triple-bind _ _ (restart_services-Triple (length services) 0 services fits)
                (finish-Triple (length services))
