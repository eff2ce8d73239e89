-- ===== src/Manager/Cleanup.antt =====
-- services/cluster_manager.py: `ClusterManager.cleanup_service`. Its locals `messages`, `success` and
-- `verify_ports` stand in the state, since they keep their values when an exception is caught.
use tantor_v.Prelude.{
  String, Bool, true, false, ◌&&◌, ◌||◌, not, Option, none, some, List, [], ◌∷◌, ◌++◌, ◌==◌, filter,
  if◌then◌else◌,
}
use tantor_v.Prelude.Int.{ℤ}
use tantor_v.Prelude.Text.{concat, join}
use tantor_v.Prelude.Exec.{Failure, Exec, pure, gets, try_except, ◌>>=◌, ◌>>◌}
use tantor_v.Models.{Cluster, Service, Host, set_status}
use tantor_v.Remote.{Machines, connect, on_db, agent_available}
use tantor_v.Ports.Listening.{Holders}
use tantor_v.Ports.Checks.{le_ℤ}
use tantor_v.Manager.Units.{is_in, unit_candidates, service_ports}
use tantor_v.Manager.Ssh.{
  Command, W, Waited, released, out_of_fuel, held, is_known, int_text, stop_unit,
  wait_ports_released, cleanup_units,
}
use tantor_v.Manager.Agent.{stop_unit_via_agent, cleanup_units_via_agent}

-- What the methods report for a service; `via` is missing where no host was found.
pub record ActionResult : Type 0 where
  pub service_id : String
  pub action : String
  pub success : Bool
  pub message : String
  pub via : Option String

abbrev pub start_locals : Bool → Exec W (Unit {0})
start_locals verify = on_db λ d. record d { messages = []; success = true; verify_ports = verify }

abbrev pub add_message : String → Exec W (Unit {0})
add_message m = on_db λ d. record d { messages = d.messages ++ m ∷ [] }

abbrev pub and_success : Bool → Exec W (Unit {0})
and_success b = on_db λ d. record d { success = d.success && b }

abbrev pub verify_if : Bool → Exec W (Unit {0})
verify_if b = on_db λ d. record d { verify_ports = d.verify_ports || b }

-- `bool(cluster and cluster.state != "configured") or svc.status not in ("pending", "configured")`
unfoldable pub verifies_first : Option Cluster → Service → Bool
verifies_first cluster svc =
    (elim cluster [ none ↦ false | some c ↦ not (c.state == "configured") ])
    || not (is_in svc.status ("pending" ∷ "configured" ∷ []))

-- The loop over the units, with the way to stop one.
unfoldable pub stop_each :
    (String → Exec W (Bool × String)) → List (String × Bool × String) → Exec W (Unit {0})
stop_each stop [] = pure tt
stop_each stop ((unit, existed, state) ∷ rest) = do
  verify_if (existed || is_known state)
  outcome ← stop unit
  add_message outcome.1
  and_success outcome.0
  stop_each stop rest

-- `sorted(listening.items())`, by port.
insert_holder : ℤ × String → Holders → Holders
insert_holder h [] = h ∷ []
insert_holder h (g ∷ rest) = if le_ℤ h.0 g.0 then h ∷ g ∷ rest else g ∷ insert_holder h rest

held_texts : Holders → List String
held_texts [] = []
held_texts ((port, process) ∷ rest) =
    concat (int_text port ∷ " by " ∷ process ∷ []) ∷ held_texts rest

sort_holders : Holders → Holders
unfolding insert_holder
sort_holders [] = []
sort_holders (h ∷ rest) = insert_holder h (sort_holders rest)

held_text : Holders → String
unfolding sort_holders held_texts
held_text holders = join ", " (held_texts (sort_holders holders))

unfoldable pub report_ports : Waited → Exec W (Unit {0})
unfolding held_text
report_ports released = pure tt
report_ports out_of_fuel = and_success false
report_ports (held listening) = do
  and_success false
  add_message (concat ("ports still in use: " ∷ held_text listening ∷ []))

module _ (net : Machines Command) (cluster : Option Cluster) (svc : Service) (host : Host)
    (remove_unit : Bool) where
  -- The body of the first `try`.
  unfoldable pub cleanup_agent_body : Exec W (Unit {0})
  cleanup_agent_body = do
    units ← cleanup_units_via_agent net host (unit_candidates cluster svc.role)
    stop_each (λ unit. stop_unit_via_agent net host unit remove_unit) units

  unfoldable pub check_released : Bool → Exec W (Unit {0})
  check_released false = pure tt
  check_released true = do
    waited ← wait_ports_released net host (service_ports cluster svc)
    report_ports waited

  -- The body of the second `try`.
  unfoldable pub cleanup_ssh_body : Exec W (Unit {0})
  cleanup_ssh_body = do
    connect net host
    units ← cleanup_units net host (unit_candidates cluster svc.role)
    stop_each (λ unit. stop_unit net host unit remove_unit) units
    verify ← gets (λ w. w.db.verify_ports)
    check_released verify

  abbrev pub failed_with : String → Failure → Exec W (Unit {0})
  failed_with prefix e = do and_success false; add_message (concat (prefix ∷ e.text ∷ []))

  -- What follows either body.
  unfoldable pub conclude_cleanup : String → Exec W ActionResult
  conclude_cleanup via = do
    success ← gets (λ w. w.db.success)
    messages ← gets (λ w. w.db.messages)
    on_db λ d. record d {
      services = if success then set_status svc.id "stopped" d.services else d.services;
    }
    let text = join "; " (filter (λ m. not (m == "")) messages)
    pure (record {
      service_id = svc.id;
      action = "stop";
      success = success;
      message = if text == "" then "stopped" else text;
      via = some via;
    })

  unfoldable pub cleanup_service : Exec W ActionResult
  cleanup_service = do
    start_locals (verifies_first cluster svc)
    agent ← agent_available net host.id
    if agent
        then try_except cleanup_agent_body (failed_with "agent cleanup failed: ")
          >> conclude_cleanup "agent"
        else try_except cleanup_ssh_body (failed_with "") >> conclude_cleanup "ssh"
