-- ===== src/Manager/Agent.antt =====
-- services/cluster_manager.py: the same helpers by way of a connected agent.
use tantor_v.Prelude.{
  ℕ, zero, suc, String, Bool, true, false, ◌&&◌, ◌||◌, not, List, [], ◌∷◌, if◌then◌else◌,
}
use tantor_v.Prelude.Text.{concat, contains, lower}
use tantor_v.Prelude.Exec.{Exec, pure, try_except, ◌>>=◌, ◌>>◌}
use tantor_v.Models.{Host}
use tantor_v.Remote.{Machines, sleep}
use tantor_v.Transport.{
  systemctl_action, systemctl_kill_action, systemctl_daemon_reload, unit_exists_via_agent,
  unit_state_via_agent, file_delete_via_agent,
}
use tantor_v.Manager.Units.{is_in, first_of_candidates}
use tantor_v.Manager.Ssh.{Command, W, is_alive, is_known}

-- `try: m except Exception: pass`
abbrev pub ignoring_errors : {A : Type 0} → Exec W A → Exec W (Unit {0})
ignoring_errors m = try_except (m >>= λ _. pure tt) (λ _. pure tt)

module _ (net : Machines Command) (host : Host) where
  unfoldable pub select_from_via_agent : String → List String → Exec W String
  select_from_via_agent default [] = pure default
  select_from_via_agent default (unit ∷ rest) = do
    exists ← try_except (unit_exists_via_agent net host unit) (λ _. pure false)
    elim exists [ true ↦ pure unit | false ↦ select_from_via_agent default rest ]

  -- `_select_existing_unit_via_agent`
  unfoldable pub select_existing_unit_via_agent : List String → Exec W String
  unfolding select_from_via_agent
  select_existing_unit_via_agent candidates =
      select_from_via_agent (first_of_candidates candidates) candidates

  -- The loop after the stop: whether it broke off before its rounds were over.
  unfoldable pub await_inactive_via_agent : ℕ → String → Exec W Bool
  await_inactive_via_agent zero unit = pure false
  await_inactive_via_agent (suc rounds) unit = do
    state ← unit_state_via_agent net host unit
    elim (is_in state ("" ∷ "inactive" ∷ "failed" ∷ "unknown" ∷ [])) [
      | true ↦ pure true
      | false ↦ sleep 1 >> await_inactive_via_agent rounds unit
    ]

  unfoldable pub kill_unless_via_agent : Bool → String → Exec W (Unit {0})
  kill_unless_via_agent true unit = pure tt
  kill_unless_via_agent false unit = do
    ignoring_errors (systemctl_kill_action net host unit "all")
    sleep 2

  unfoldable pub remove_if_via_agent : Bool → String → Exec W (Unit {0})
  remove_if_via_agent false unit = pure tt
  remove_if_via_agent true unit = do
    ignoring_errors (systemctl_action net host "disable" unit)
    ignoring_errors (file_delete_via_agent net host (concat ("/etc/systemd/system/" ∷ unit ∷ [])))
    ignoring_errors (systemctl_daemon_reload net host)

  unfoldable pub stop_verdict_via_agent : String → Exec W (Bool × String)
  stop_verdict_via_agent unit = do
    state ← unit_state_via_agent net host unit
    if is_alive state
        then pure (false, concat (unit ∷ " still " ∷ state ∷ " after stop" ∷ []))
        else pure (true, concat ("stopped " ∷ unit ∷ []))

  unfoldable pub settle_stop_via_agent : String → Bool → Exec W (Bool × String)
  settle_stop_via_agent unit remove_unit = do
    broke ← await_inactive_via_agent 15 unit
    kill_unless_via_agent broke unit
    ignoring_errors (systemctl_action net host "reset_failed" unit)
    remove_if_via_agent remove_unit unit
    stop_verdict_via_agent unit

  -- The answer of the stop.
  unfoldable pub after_stop_via_agent : String → Bool → Bool × String → Exec W (Bool × String)
  after_stop_via_agent unit remove_unit (stop_ok, stop_msg) =
      if not stop_ok && not (contains "not loaded" (lower stop_msg))
      then pure (false, concat ("failed to stop " ∷ unit ∷ ": " ∷ stop_msg ∷ []))
      else settle_stop_via_agent unit remove_unit

  unfoldable pub try_stop_via_agent : String → Bool → Exec W (Bool × String)
  try_stop_via_agent unit remove_unit = do
    exists ← unit_exists_via_agent net host unit
    state ← unit_state_via_agent net host unit
    if not exists && is_in state ("" ∷ "inactive" ∷ "unknown" ∷ [])
        then pure (true, concat (unit ∷ " not present" ∷ []))
        else (do
          stopped ← systemctl_action net host "stop" unit
          after_stop_via_agent unit remove_unit stopped)

  -- `_stop_unit_via_agent`
  unfoldable pub stop_unit_via_agent : String → Bool → Exec W (Bool × String)
  stop_unit_via_agent unit remove_unit =
      try_except (try_stop_via_agent unit remove_unit)
        (λ e. pure (false, concat ("agent stop failed: " ∷ e.text ∷ [])))

  -- A unit's presence and state; an error counts as absent and unknown.
  unfoldable pub look_via_agent : String → Exec W (Bool × String)
  look_via_agent unit =
      try_except
        (do
          exists ← unit_exists_via_agent net host unit
          state ← unit_state_via_agent net host unit
          pure (exists, state))
        (λ _. pure (false, "unknown"))

  unfoldable pub cleanup_from_via_agent :
      String × Bool × String → List String → Exec W (List (String × Bool × String))
  cleanup_from_via_agent primary [] = pure (primary ∷ [])
  cleanup_from_via_agent primary (unit ∷ rest) = do
    seen ← look_via_agent unit
    elim (seen.0 || is_known seen.1) [
      | true ↦ pure ((unit, seen.0, seen.1) ∷ [])
      | false ↦ cleanup_from_via_agent primary rest
    ]

  -- `_cleanup_units_via_agent`
  unfoldable pub cleanup_units_via_agent : List String → Exec W (List (String × Bool × String))
  unfolding cleanup_from_via_agent
  cleanup_units_via_agent [] = pure []
  cleanup_units_via_agent (primary ∷ fallbacks) = do
    seen ← look_via_agent primary
    if seen.0 || is_known seen.1
        then pure ((primary, seen.0, seen.1) ∷ [])
        else cleanup_from_via_agent (primary, seen.0, seen.1) fallbacks
