-- ===== src/Manager/Stopped.antt =====
-- services/cluster_manager.py: what `stop_cluster` and `cleanup_service` leave behind.
use tantor_v.Prelude.{String, ◌≡◌, refl, Bool, true, false, Option, List, [], ◌∷◌, if◌then◌else◌}
use tantor_v.Prelude.Sort.{sort_by}
use tantor_v.Prelude.Exec.{Failure, Exec, gets, ◌>>=◌, Triple, Triple-pure, Triple-bind, Triple-if}
use tantor_v.Models.{Cluster, Service, Host, set_status, find_cluster}
use tantor_v.Remote.{Machines, on_db, Triple-on_db}
use tantor_v.Manager.Units.{stop_order}
use tantor_v.Manager.Ssh.{Command, ManagerDb, W, Waited, released, out_of_fuel, held}
use tantor_v.Manager.Cleanup.{
  ActionResult, stop_each, report_ports, cleanup_agent_body, check_released, cleanup_ssh_body,
  failed_with, conclude_cleanup, cleanup_service,
}
use tantor_v.Manager.Frame.{
  Keeps, Returns, Keeps-bind, Returns-bind, Keeps-pure, Returns-try, Returns→Keeps, Keeps-connect,
  Returns-agent_available,
}
use tantor_v.Manager.StopFrame.{
  Keeps-stop_unit, Keeps-wait_ports_released, Keeps-cleanup_units, Returns-stop_unit_via_agent,
  Returns-cleanup_units_via_agent,
}
use tantor_v.Manager.Lifecycle.{services_of, each_service, stop_services, stop_cluster}
use tantor_v.Manager.Started.{Rows, each_service-Triple, EndsAs, conclude-EndsAs}

-- A result of a stop: only a success changes the row.
abbrev pub after_stop : ActionResult → List Service → List Service
after_stop r rows = if r.success then set_status r.service_id "stopped" rows else rows

module _ (C : List Cluster) (S : List Service) where
  abbrev SameRows : ManagerDb → Type 0
  SameRows = Rows C S

  -- A write to the locals.
  Returns-locals :
      (f : ManagerDb → ManagerDb)
      → ((d : ManagerDb) → SameRows d → SameRows (f d))
      → Returns SameRows (on_db f)
  Returns-locals f keep = Triple-on_db f (λ w h. keep w.db h)

  Keeps-locals :
      (f : ManagerDb → ManagerDb)
      → ((d : ManagerDb) → SameRows d → SameRows (f d))
      → Keeps SameRows (on_db f)
  Keeps-locals f keep = Triple-on_db f (λ w h. keep w.db h)

  Keeps-gets : {A : Type 0} (f : W → A) → Keeps SameRows (gets f)
  unfolding gets
  Keeps-gets f = record { at = λ w h. h }

  Keeps-stop_each :
      (stop : String → Exec W (Bool × String))
      → ((unit : String) → Keeps SameRows (stop unit))
      → (units : List (String × Bool × String)) → Keeps SameRows (stop_each stop units)
  unfolding stop_each
  Keeps-stop_each stop t [] = Keeps-pure SameRows tt
  Keeps-stop_each stop t ((unit, existed, state) ∷ rest) =
      Keeps-bind SameRows _ _ (Keeps-locals _ (λ d h. h)) λ _.
        Keeps-bind SameRows _ _ (t unit) λ outcome.
          Keeps-bind SameRows _ _ (Keeps-locals _ (λ d h. h)) λ _.
            Keeps-bind SameRows _ _ (Keeps-locals _ (λ d h. h)) (λ _. Keeps-stop_each stop t rest)

  Keeps-report_ports : (waited : Waited) → Keeps SameRows (report_ports waited)
  unfolding report_ports
  Keeps-report_ports released = Keeps-pure SameRows tt
  Keeps-report_ports out_of_fuel = Keeps-locals _ (λ d h. h)
  Keeps-report_ports (held listening) =
      Keeps-bind SameRows _ _ (Keeps-locals _ (λ d h. h)) (λ _. Keeps-locals _ (λ d h. h))

  module _ (net : Machines Command) (cluster : Option Cluster) (svc : Service) (host : Host)
      (remove : Bool) where
    Keeps-cleanup_agent_body : Keeps SameRows (cleanup_agent_body net cluster svc host remove)
    unfolding cleanup_agent_body
    Keeps-cleanup_agent_body =
        Keeps-bind SameRows _ _
          (Returns→Keeps SameRows _ (Returns-cleanup_units_via_agent SameRows net host _))
          λ units.
            Keeps-stop_each _
              (λ unit.
                Returns→Keeps SameRows _
                  (Returns-stop_unit_via_agent SameRows net host unit remove))
              units

    Keeps-check_released :
        (b : Bool) → Keeps SameRows (check_released net cluster svc host remove b)
    unfolding check_released
    Keeps-check_released false = Keeps-pure SameRows tt
    Keeps-check_released true =
        Keeps-bind SameRows _ _ (Keeps-wait_ports_released SameRows net host _) Keeps-report_ports

    Keeps-cleanup_ssh_body : Keeps SameRows (cleanup_ssh_body net cluster svc host remove)
    unfolding cleanup_ssh_body
    Keeps-cleanup_ssh_body = Keeps-bind SameRows _ _ (Keeps-connect SameRows net host) λ _.
        Keeps-bind SameRows _ _ (Keeps-cleanup_units SameRows net host _) λ units.
          Keeps-bind SameRows _ _
            (Keeps-stop_each _ (λ unit. Keeps-stop_unit SameRows net host unit remove) units)
            λ _. Keeps-bind SameRows _ _ (Keeps-gets _) Keeps-check_released

    Returns-failed_with :
        (prefix : String) (e : Failure)
        → Returns SameRows (failed_with net cluster svc host remove prefix e)
    Returns-failed_with prefix e =
        Returns-bind SameRows _ _ (Returns-locals _ (λ d h. h)) (λ _. Returns-locals _ (λ d h. h))

    conclude_cleanup-Triple :
        (via : String)
        → Triple
            (λ w. SameRows w.db)
            (conclude_cleanup net cluster svc host remove via)
            (λ r w. (r.service_id ≡ svc.id) × Rows C (after_stop r S) w.db)
            (λ _. ⊥)
    unfolding conclude_cleanup gets
    conclude_cleanup-Triple via =
        Triple-bind {R = λ _ w. SameRows w.db} _ _ (record { at = λ w h. h })
          λ success.
            Triple-bind {R = λ _ w. SameRows w.db} _ _ (record { at = λ w h. h })
              λ messages.
                Triple-bind _ _
                  (Triple-on_db
                    {R = λ _ w. Rows C (if success then set_status svc.id "stopped" S else S) w.db}
                    _ (λ w h. (h.0, rw (h.1) refl)))
                  λ _. Triple-pure _ (λ w h. (refl, h))

    cleanup_service-Triple :
        Triple
          (λ w. SameRows w.db)
          (cleanup_service net cluster svc host remove)
          (λ r w. (r.service_id ≡ svc.id) × Rows C (after_stop r S) w.db)
          (λ _. ⊥)
    unfolding cleanup_service
    cleanup_service-Triple = Triple-bind _ _ (Returns-locals _ (λ d h. h)) λ _.
        Triple-bind _ _ (Returns-agent_available SameRows net host host.id) λ agent.
          Triple-if agent _ _
            (λ _.
              Triple-bind _ _
                (Returns-try SameRows _ _ Keeps-cleanup_agent_body
                  (Returns-failed_with "agent cleanup failed: "))
                (λ _. conclude_cleanup-Triple "agent"))
            (λ _.
              Triple-bind _ _
                (Returns-try SameRows _ _ Keeps-cleanup_ssh_body (Returns-failed_with ""))
                (λ _. conclude_cleanup-Triple "ssh"))

-- `stop_cluster` returns, with one result for each service of the cluster in the order of
-- STOP_ORDER; exactly the services whose result is a success become "stopped"; the cluster is
-- "stopped" if all succeeded and "error" if not.
pub stop_cluster-EndsAs :
    (net : Machines Command) (hosts : List Host) (cluster_id : String) (w : W)
    → EndsAs after_stop "stopped" cluster_id
        (λ s. stop_order s.role)
        w.db
        (stop_cluster hosts net cluster_id w)
unfolding stop_cluster stop_services gets ◌>>=◌
stop_cluster-EndsAs net hosts cluster_id w =
    conclude-EndsAs after_stop hosts cluster_id "stopped" (λ s. stop_order s.role) w.db
      (each_service hosts "stop" run ordered) w
      ((each_service-Triple after_stop hosts "stop" run (λ svc S. refl)
          (λ svc host C S.
            cleanup_service-Triple C S net (find_cluster cluster_id w.db.clusters) svc host false)
          ordered w.db.clusters w.db.services).at
        w (refl, refl))
  where
    run : Service → Host → Exec W ActionResult
    run svc host = cleanup_service net (find_cluster cluster_id w.db.clusters) svc host false

    ordered : List Service
    ordered = sort_by (λ s. stop_order s.role) (services_of cluster_id w.db.services)
