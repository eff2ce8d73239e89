-- ===== src/Transport.antt =====
-- services/agent_transport.py: the calls that go to a connected agent in place of SSH.
use tantor_v.Prelude.{
  ℕ, String, Bool, true, false, Option, none, some, [], ◌∷◌, ◌==◌, ◌||◌, if◌then◌else◌,
}
use tantor_v.Prelude.Int.{ℤ, pos, negsuc, is_zero}
use tantor_v.Prelude.Text.{strip, concat, decimal}
use tantor_v.Prelude.Exec.{Exec, pure, ◌>>=◌}
use tantor_v.Models.{Host, or_text}
use tantor_v.Remote.{
  systemctl, systemctl_kill, is_active, cat, daemon_reload, file_delete, AgentAnswer, result, error,
  Machines, World, run_op,
}

-- `r.get("exit_code", 0)`
abbrev exit_code_of : Option ℤ → ℤ
exit_code_of none = pos 0
exit_code_of (some n) = n

abbrev int_text : ℤ → String
int_text (pos n) = decimal n
int_text (negsuc n) = concat ("-" ∷ decimal (ℕ.suc n) ∷ [])

-- f"{err.get('code', 'agent_error')}: {err.get('message', '')}"
abbrev error_text : Option String → Option String → String
error_text code message = concat (
    (elim code [ none ↦ "agent_error" | some c ↦ c ])
    ∷ ": "
    ∷ (elim message [ none ↦ "" | some m ↦ m ])
    ∷ [])

-- How `systemctl_action` reads an answer.
abbrev action_outcome : String → String → AgentAnswer → Bool × String
action_outcome action unit (error code message) = (false, error_text code message)
action_outcome action unit (result code out err) =
    if is_zero (exit_code_of code) then (true, concat (action ∷ " " ∷ unit ∷ " ok" ∷ [])) else (
      false,
      or_text err
          (concat ("systemctl exit " ∷ (elim code [ none ↦ "None" | some n ↦ int_text n ]) ∷ [])),
    )

abbrev plain_outcome : AgentAnswer → Bool × String
plain_outcome (error code message) = (false, error_text code message)
plain_outcome (result code out err) = (is_zero (exit_code_of code), or_text err "")

abbrev exists_outcome : AgentAnswer → Bool
exists_outcome (error code message) = false
exists_outcome (result code out err) = is_zero (exit_code_of code)

-- `(stdout or "").strip() or "unknown"`
abbrev stdout_state : Option String → String
stdout_state out = or_text (some (strip (or_text out ""))) "unknown"

abbrev state_outcome : AgentAnswer → String
state_outcome (error code message) = "unknown"
state_outcome (result code out err) = stdout_state out

abbrev active_outcome : AgentAnswer → Bool × String
active_outcome (error code message) = (false, elim code [ none ↦ "agent_error" | some c ↦ c ])
active_outcome (result code out err) =
    let state = stdout_state out in (state == "active" || state == "activating", state)

module _ {C D : Type 0} (net : Machines C) (host : Host) where
  unfoldable pub systemctl_action : String → String → Exec (World C D) (Bool × String)
  systemctl_action action unit = do
    res ← run_op net host (systemctl action unit)
    pure (action_outcome action unit res)

  -- `systemctl_action(host, "kill", unit, mode=mode)`
  unfoldable pub systemctl_kill_action : String → String → Exec (World C D) (Bool × String)
  systemctl_kill_action unit mode = do
    res ← run_op net host (systemctl_kill unit mode)
    pure (action_outcome "kill" unit res)

  unfoldable pub systemctl_daemon_reload : Exec (World C D) (Bool × String)
  systemctl_daemon_reload = do res ← run_op net host daemon_reload; pure (plain_outcome res)

  unfoldable pub unit_exists_via_agent : String → Exec (World C D) Bool
  unit_exists_via_agent unit = do res ← run_op net host (cat unit); pure (exists_outcome res)

  unfoldable pub unit_state_via_agent : String → Exec (World C D) String
  unit_state_via_agent unit = do res ← run_op net host (is_active unit); pure (state_outcome res)

  unfoldable pub systemctl_is_active : String → Exec (World C D) (Bool × String)
  systemctl_is_active unit = do res ← run_op net host (is_active unit); pure (active_outcome res)

  unfoldable pub file_delete_via_agent : String → Exec (World C D) (Bool × String)
  file_delete_via_agent path = do res ← run_op net host (file_delete path); pure (plain_outcome res)
