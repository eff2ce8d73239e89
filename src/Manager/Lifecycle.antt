-- ===== src/Manager/Lifecycle.antt =====
-- services/cluster_manager.py: `start_cluster`, `stop_cluster` and `cleanup_cluster`. The rows of the
-- hosts are a parameter, since nothing here changes them.
use tantor_v.Prelude.{
  String, Bool, true, false, Option, none, some, List, [], ◌∷◌, ◌==◌, all, filter, if◌then◌else◌,
}
use tantor_v.Prelude.Sort.{sort_by}
use tantor_v.Prelude.Text.{concat}
use tantor_v.Prelude.Exec.{Failure, Exec, pure, gets, try_except, ◌>>=◌, ◌>>◌}
use tantor_v.Models.{Cluster, Service, Host, find_host, set_status, find_cluster}
use tantor_v.Remote.{Machines, succeeded, exec_command, connect, on_db, agent_available}
use tantor_v.Transport.{systemctl_action}
use tantor_v.Manager.Units.{unit_candidates, start_order, stop_order}
use tantor_v.Manager.Ssh.{Command, start, W, int_text, or_message, select_existing_unit}
use tantor_v.Manager.Agent.{select_existing_unit_via_agent}
use tantor_v.Manager.Cleanup.{ActionResult, cleanup_service}

-- `cluster.state = state` on the row with this id.
abbrev pub set_state : String → String → List Cluster → List Cluster
set_state id state [] = []
set_state id state (c ∷ rest) =
    (if c.id == id then record c { state = state } else c) ∷ set_state id state rest

abbrev pub services_of : String → List Service → List Service
services_of cluster_id rows = filter (λ s. s.cluster_id == cluster_id) rows

abbrev pub action_result : Service → String → Bool → String → Option String → ActionResult
action_result svc action success message via = record {
  service_id = svc.id;
  action = action;
  success = success;
  message = message;
  via = via;
}

abbrev pub started_text : String → Host → String
started_text unit host = concat ("Started " ∷ unit ∷ " on " ∷ host.ip_address ∷ [])

-- `"running" if result["success"] else "error"`
abbrev pub running_or_error : Bool → String
running_or_error success = if success then "running" else "error"

module _ (svc : Service) where
  abbrev pub mark : String → Exec W (Unit {0})
  mark status = on_db λ d. record d { services = set_status svc.id status d.services }

  abbrev pub mark_result : ActionResult → Exec W ActionResult
  mark_result r = do mark (running_or_error r.success); pure r

  -- The `except` of the loop.
  abbrev pub start_failed : Failure → Exec W ActionResult
  start_failed e = do mark "error"; pure (action_result svc "start" false e.text (some "ssh"))

module _ (net : Machines Command) (cluster : Option Cluster) (svc : Service) (host : Host) where
  -- `_start_service_via_agent`
  unfoldable pub start_service_via_agent : Exec W ActionResult
  start_service_via_agent = do
    unit ← select_existing_unit_via_agent net host (unit_candidates cluster svc.role)
    try_except
        (do
          outcome ← systemctl_action net host "start" unit
          pure (
              action_result svc "start" outcome.0
                (if outcome.0 then started_text unit host else outcome.1) (some "agent")))
        (λ e. pure (
          action_result svc "start" false (concat ("agent dispatch failed: " ∷ e.text ∷ []))
            (some "agent")))

  -- `_start_service`
  unfoldable pub start_service : Exec W ActionResult
  start_service = do
    unit ← select_existing_unit net host (unit_candidates cluster svc.role)
    r ← exec_command net host (start unit)
    if succeeded r
        then pure (action_result svc "start" true (started_text unit host) (some "ssh"))
        else pure (
            action_result svc "start" false
              (or_message r.stderr (concat ("systemctl exit " ∷ int_text r.exit_code ∷ [])))
              (some "ssh"))

  -- One round of the loop of `start_cluster`, behind the test for the host.
  unfoldable pub start_on : Exec W ActionResult
  start_on = do
    agent ← agent_available net host.id
    if agent
        then start_service_via_agent >>= mark_result svc
        else try_except (connect net host >> (start_service >>= mark_result svc)) (start_failed svc)

-- The end of `start_cluster` and of `stop_cluster`: a missing cluster has no row to change.
unfoldable pub conclude : String → String → List ActionResult → Exec W (List ActionResult)
conclude cluster_id good results = do
  on_db λ d. record d {
    clusters =
        set_state cluster_id (if all (λ r. r.success) results then good else "error") d.clusters;
  }
  pure results

module _ (hosts : List Host) where
  -- A loop over services that gives one result each, "Host not found" for a missing host.
  unfoldable pub each_service :
      String → (Service → Host → Exec W ActionResult) → List Service → Exec W (List ActionResult)
  each_service action run [] = pure []
  each_service action run (svc ∷ rest) = do
    r ← elim (find_host svc.host_id hosts) [
      | none ↦ pure (action_result svc action false "Host not found" none)
      | some host ↦ run svc host
    ]
    later ← each_service action run rest
    pure (r ∷ later)

  module _ (net : Machines Command) (cluster_id : String) where
    unfoldable pub start_cluster : Exec W (List ActionResult)
    start_cluster = do
      cluster ← gets (λ w. find_cluster cluster_id w.db.clusters)
      services ← gets (λ w. services_of cluster_id w.db.services)
      results ←
          each_service "start" (λ svc host. start_on net cluster svc host)
            (sort_by (λ s. start_order s.role) services)
      conclude cluster_id "running" results

    -- `_stop_services`
    unfoldable pub stop_services : Bool → Exec W (List ActionResult)
    stop_services remove_units = do
      cluster ← gets (λ w. find_cluster cluster_id w.db.clusters)
      services ← gets (λ w. services_of cluster_id w.db.services)
      each_service "stop" (λ svc host. cleanup_service net cluster svc host remove_units)
          (sort_by (λ s. stop_order s.role) services)

    unfoldable pub stop_cluster : Exec W (List ActionResult)
    stop_cluster = do results ← stop_services false; conclude cluster_id "stopped" results

    unfoldable pub cleanup_cluster : Bool → Exec W (List ActionResult)
    cleanup_cluster remove_units = stop_services remove_units
