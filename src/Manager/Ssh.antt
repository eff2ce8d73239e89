-- ===== src/Manager/Ssh.antt =====
-- services/cluster_manager.py: the helpers that run `systemctl` over SSH.
use tantor_v.Prelude.{
  ℕ, zero, suc, ◌+◌, ◌*◌, String, Bool, true, false, ◌&&◌, ◌||◌, not, List, [], ◌∷◌, ◌==◌, leb,
  if◌then◌else◌,
}
use tantor_v.Prelude.Int.{ℤ, pos, negsuc}
use tantor_v.Prelude.Text.{strip, concat, contains, decimal, lower}
use tantor_v.Prelude.Exec.{Exec, pure, ◌>>=◌, ◌>>◌}
use tantor_v.Models.{Cluster, Service, Host}
use tantor_v.Remote.{Machines, World, Reply, succeeded, exec_command, sleep, now}
use tantor_v.Ports.Listening.{PortCommand, Holders, list_listening}
use tantor_v.Manager.Units.{is_in, first_of_candidates}

-- The unit of each command is quoted by `shlex.quote` in the text that is sent.
pub data Command : Type 0 where
  -- `systemctl cat … >/dev/null 2>&1`, `systemctl is-active … 2>/dev/null || true`
  cat is_active : String → Command
  -- `sudo -n systemctl start …`, `sudo -n systemctl stop …`
  start stop : String → Command
  -- `kill --kill-who=all`, `reset-failed`, `disable`, and `rm -f /etc/systemd/system/…`, each with
  -- `2>/dev/null || true`
  kill reset_failed disable remove_file : String → Command
  daemon_reload : Command
  ports : PortCommand → Command

-- The rows that the methods change, and the locals of `cleanup_service` that outlive an exception.
pub record ManagerDb : Type 0 where
  pub clusters : List Cluster
  pub services : List Service
  pub messages : List String
  pub success : Bool
  pub verify_ports : Bool

abbrev pub W : Type 0
W = World Command ManagerDb

-- `state in ("active", "activating", "deactivating")`
abbrev pub is_alive : String → Bool
is_alive state = is_in state ("active" ∷ "activating" ∷ "deactivating" ∷ [])

-- The same with "failed".
abbrev pub is_known : String → Bool
is_known state = is_in state ("active" ∷ "activating" ∷ "deactivating" ∷ "failed" ∷ [])

-- What one wait for the ports ends with; `out_of_fuel` does not occur with enough rounds.
pub data Waited : Type 0 where
  released out_of_fuel : Waited
  held : Holders → Waited

abbrev pub is_free : Holders → Bool
is_free [] = true
is_free (_ ∷ _) = false

abbrev pub int_text : ℤ → String
int_text (pos n) = decimal n
int_text (negsuc n) = concat ("-" ∷ decimal (suc n) ∷ [])

abbrev pub or_message : String → String → String
or_message s d = if s == "" then d else s

module _ (net : Machines Command) (host : Host) where
  -- `_unit_exists`
  unfoldable pub unit_exists : String → Exec W Bool
  unit_exists unit = do r ← exec_command net host (cat unit); pure (succeeded r)

  -- `_unit_state`
  unfoldable pub unit_state : String → Exec W String
  unit_state unit = do r ← exec_command net host (is_active unit); pure (strip r.stdout)

  unfoldable pub select_from : String → List String → Exec W String
  select_from default [] = pure default
  select_from default (unit ∷ rest) = do
    exists ← unit_exists unit
    elim exists [ true ↦ pure unit | false ↦ select_from default rest ]

  -- `_select_existing_unit`
  unfoldable pub select_existing_unit : List String → Exec W String
  unfolding select_from
  select_existing_unit candidates = select_from (first_of_candidates candidates) candidates

  -- The loop after the stop: whether it broke off before its rounds were over.
  unfoldable pub await_inactive : ℕ → String → Exec W Bool
  await_inactive zero unit = pure false
  await_inactive (suc rounds) unit = do
    state ← unit_state unit
    elim (is_in state ("" ∷ "inactive" ∷ "failed" ∷ "unknown" ∷ [])) [
      | true ↦ pure true
      | false ↦ sleep 1 >> await_inactive rounds unit
    ]

  unfoldable pub kill_unless : Bool → String → Exec W (Unit {0})
  kill_unless true unit = pure tt
  kill_unless false unit = do exec_command net host (kill unit); sleep 2

  unfoldable pub remove_if : Bool → String → Exec W (Unit {0})
  remove_if false unit = pure tt
  remove_if true unit = do
    exec_command net host (disable unit)
    exec_command net host (remove_file unit)
    exec_command net host daemon_reload
    pure tt

  -- The last look of `_stop_unit`.
  unfoldable pub stop_verdict : String → Exec W (Bool × String)
  stop_verdict unit = do
    state ← unit_state unit
    if is_alive state
        then pure (false, concat (unit ∷ " still " ∷ state ∷ " after stop" ∷ []))
        else pure (true, concat ("stopped " ∷ unit ∷ []))

  -- What follows a stop that was not refused.
  unfoldable pub settle_stop : String → Bool → Exec W (Bool × String)
  settle_stop unit remove_unit = do
    broke ← await_inactive 15 unit
    kill_unless broke unit
    exec_command net host (reset_failed unit)
    remove_if remove_unit unit
    stop_verdict unit

  abbrev refused : Reply → Bool
  refused r = not (succeeded r) && not (contains "not loaded" (lower r.stderr))

  -- `_stop_unit`
  unfoldable pub stop_unit : String → Bool → Exec W (Bool × String)
  stop_unit unit remove_unit = do
    exists ← unit_exists unit
    state ← unit_state unit
    if not exists && is_in state ("" ∷ "inactive" ∷ "unknown" ∷ [])
        then pure (true, concat (unit ∷ " not present" ∷ []))
        else (do
          r ← exec_command net host (stop unit)
          if refused r
              then pure (
                false,
                concat (
                    "failed to stop "
                    ∷ unit
                    ∷ ": "
                    ∷ or_message r.stderr (concat ("systemctl exit " ∷ int_text r.exit_code ∷ []))
                    ∷ []),
              )
              else settle_stop unit remove_unit)

  -- `while time.time() <= deadline`, with fuel for the rounds.
  unfoldable pub await_released : ℕ → ℕ → List ℤ → Holders → Exec W Waited
  await_released zero deadline wanted seen = do
    t ← now net
    if leb t deadline then pure out_of_fuel else pure (held seen)
  await_released (suc fuel) deadline wanted seen = do
    t ← now net
    elim (leb t deadline) [
      | false ↦ pure (held seen)
      | true ↦ list_listening net ports host wanted >>= λ listening. elim (is_free listening) [
        | true ↦ pure released
        | false ↦ sleep 1 >> await_released fuel deadline wanted listening
      ]
    ]

  -- `_wait_ports_released`: each round sleeps a second, so 21 rounds pass the 20 seconds.
  unfoldable pub wait_ports_released : List ℤ → Exec W Waited
  wait_ports_released [] = pure released
  wait_ports_released (p ∷ rest) = do t ← now net; await_released 21 (t + 20 * 1000) (p ∷ rest) []

  -- `_probe_status`, from the fallback that was found so far.
  probe_from : String → String → List String → Exec W (String × String)
  probe_from fallback_unit fallback_state [] = pure (fallback_unit, fallback_state)
  probe_from fallback_unit fallback_state (unit ∷ rest) = do
    exists ← unit_exists unit
    raw ← unit_state unit
    let state = or_message raw "unknown"
    let keep = exists && fallback_state == "unknown"
    elim (is_known state) [
      | true ↦ pure (unit, state)
      | false ↦
          probe_from (if keep then unit else fallback_unit) (if keep then state else fallback_state)
            rest
    ]

  unfoldable pub probe_status : List String → Exec W (String × String)
  unfolding probe_from
  probe_status candidates = probe_from (first_of_candidates candidates) "unknown" candidates

  unfoldable pub cleanup_from :
      String × Bool × String → List String → Exec W (List (String × Bool × String))
  cleanup_from primary [] = pure (primary ∷ [])
  cleanup_from primary (unit ∷ rest) = do
    exists ← unit_exists unit
    state ← unit_state unit
    elim (exists || is_known state) [
      | true ↦ pure ((unit, exists, state) ∷ [])
      | false ↦ cleanup_from primary rest
    ]

  -- `_cleanup_units`: the first candidate that is there, else the primary one. The primary one comes
  -- first, so the search over all candidates is the search of the code.
  unfoldable pub cleanup_units : List String → Exec W (List (String × Bool × String))
  unfolding cleanup_from
  cleanup_units [] = pure []
  cleanup_units (primary ∷ fallbacks) = do
    exists ← unit_exists primary
    state ← unit_state primary
    if exists || is_known state
        then pure ((primary, exists, state) ∷ [])
        else cleanup_from (primary, exists, state) fallbacks
