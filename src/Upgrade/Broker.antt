-- ===== src/Upgrade/Broker.antt =====
-- services/upgrade_manager.py: step 4 of `_do_rolling_upgrade`, the upgrade of one broker.
use tantor_v.Prelude.{
  ℕ, zero, suc, ◌+◌, ◌*◌, ◌%◌, String, Bool, true, false, ◌&&◌, not, List, [], ◌∷◌, ◌==◌, eqb,
  if◌then◌else◌,
}
use tantor_v.Prelude.Text.{strip, concat, decimal, int_text}
use tantor_v.Prelude.Exec.{Failure, Exec, pure, raise, ◌>>=◌, ◌>>◌}
use tantor_v.Models.{Service, Host}
use tantor_v.Remote.{Machines, Reply, succeeded, connect, exec_command, sleep}
use tantor_v.Upgrade.Defs.{
  Command, stop, start, is_active, listening, backup_install, backup_config, restore_config,
  fix_ownership, extract, remove_temp, put, under_replicated_quietly, Level, info, warning, W, log,
  set_service_status, says_active, partition_lines,
}
use tantor_v.Upgrade.Repo.{Tarball}

abbrev pub runtime_error : List String → Failure
runtime_error parts = record { class_name = "RuntimeError"; text = concat parts }

module _ (svc : Service) where
  -- `_log(task_id, f"[Broker {svc.node_id}] …", level)`
  abbrev note : Level → List String → Exec W (Unit {0})
  note level parts =
      log level (concat ("[Broker " ∷ decimal svc.node_id ∷ "] " ∷ concat parts ∷ []))

  -- `if exit_code != 0: raise RuntimeError(…)`
  abbrev pub need : String → String → Reply → Exec W (Unit {0})
  need what on r =
      if succeeded r
      then pure tt
      else raise (runtime_error (what ∷ on ∷ decimal svc.node_id ∷ ": " ∷ r.stderr ∷ []))

  -- "Still waiting", every sixth attempt.
  abbrev pub note_wait : String → ℕ → Exec W (Unit {0})
  note_wait what attempt =
      if eqb (attempt % 6) 5
      then note info (what ∷ "... (" ∷ decimal ((attempt + 1) * 5) ∷ "s elapsed)" ∷ [])
      else pure tt

  module _ (net : Machines Command) (host : Host) where
    -- 4a. Stop the broker: the exit code is only logged.
    unfoldable pub stop_broker : Exec W (Unit {0})
    stop_broker = do
      note info ("Stopping Kafka service..." ∷ [])
      r ← exec_command net host stop
      if succeeded r
          then note info ("Kafka service stopped" ∷ [])
          else note warning
              ("Warning: stop returned exit code " ∷ int_text r.exit_code ∷ ": " ∷ r.stderr ∷ [])
      set_service_status svc.id "stopped"
      sleep 3

    -- 4b. Backup current installation: the exit code is only logged.
    unfoldable pub backup_broker : Exec W (Unit {0})
    backup_broker = do
      note info ("Backing up current Kafka installation..." ∷ [])
      r ← exec_command net host backup_install
      if succeeded r
          then note info ("Backup completed" ∷ [])
          else note warning ("Backup warning: " ∷ r.stderr ∷ [])

    -- 4c. Copy new version tarball via SFTP: `put` raises or succeeds, there is no exit code.
    unfoldable pub upload : Tarball → Exec W (Unit {0})
    upload tarball = do
      note info ("Uploading " ∷ tarball.filename ∷ " to remote host..." ∷ [])
      r ← exec_command net host (put tarball.path tarball.filename)
      note info ("Upload completed" ∷ [])

    -- 4d. Preserve config, extract new version, restore config, and tidy up.
    unfoldable pub replace_installation : Tarball → String → Exec W (Unit {0})
    replace_installation tarball target_version = do
      note info ("Backing up configuration..." ∷ [])
      r ← exec_command net host backup_config
      need "Failed to backup config" " on broker " r
      note info ("Configuration backed up" ∷ [])
      note info ("Extracting new Kafka version..." ∷ [])
      r ← exec_command net host (extract tarball.filename target_version)
      need "Failed to extract new version" " on broker " r
      note info ("New version extracted" ∷ [])
      note info ("Restoring configuration..." ∷ [])
      r ← exec_command net host restore_config
      need "Failed to restore config" " on broker " r
      note info ("Configuration restored" ∷ [])
      r ← exec_command net host (remove_temp tarball.filename)
      r ← exec_command net host fix_ownership
      pure tt

    -- 4e. Start broker with new version
    unfoldable pub start_broker : Exec W (Unit {0})
    start_broker = do
      note info ("Starting Kafka with new version..." ∷ [])
      r ← exec_command net host start
      need "Failed to start" " broker " r
      note info ("Kafka service started" ∷ [])

    -- One look at the unit and, if it is active, at its port.
    unfoldable pub check_up : Exec W Bool
    check_up = do
      r ← exec_command net host is_active
      if says_active r
          then (do
            p ← exec_command net host listening
            pure (succeeded p && not (strip p.stdout == "")))
          else pure false

    -- 4f. Wait for broker to become healthy, with the rounds that are left.
    unfoldable pub await_healthy : ℕ → ℕ → Exec W Bool
    await_healthy zero attempt = pure false
    await_healthy (suc rounds) attempt = do
      sleep 5
      healthy ← check_up
      elim healthy [
        | true ↦ pure true
        | false ↦ note_wait "Still waiting" attempt >> await_healthy rounds (attempt + 1)
      ]

    abbrev pub no_partitions : Reply → Bool
    no_partitions r = succeeded r && eqb (partition_lines r.stdout) 0

    -- 4g. Wait for ISR recovery, with the rounds that are left.
    unfoldable pub await_isr : ℕ → ℕ → Exec W Bool
    await_isr zero attempt = pure false
    await_isr (suc rounds) attempt = do
      sleep 5
      r ← exec_command net host under_replicated_quietly
      elim (no_partitions r) [
        | true ↦ pure true
        | false ↦ note_wait "ISR recovery in progress" attempt >> await_isr rounds (attempt + 1)
      ]

    -- What follows the wait of 4f.
    unfoldable pub settle_broker : Bool → Exec W (Unit {0})
    settle_broker false = raise (
        runtime_error
          ("Broker " ∷ decimal svc.node_id ∷ " did not become healthy after 150 seconds" ∷ []))
    settle_broker true = do
      note info ("Broker is healthy" ∷ [])
      set_service_status svc.id "running"
      note info ("Waiting for ISR recovery..." ∷ [])
      isr_recovered ← await_isr 24 0
      if isr_recovered
          then note info ("ISR fully recovered" ∷ [])
          else note warning ("ISR recovery timed out — proceeding with caution" ∷ [])

    -- The block under `with SSHManager.connect(…)`.
    unfoldable pub upgrade_connected : Tarball → String → Exec W (Unit {0})
    upgrade_connected tarball target_version = do
      connect net host
      stop_broker
      backup_broker
      upload tarball
      replace_installation tarball target_version
      start_broker
      note info ("Waiting for broker to become healthy..." ∷ [])
      healthy ← await_healthy 30 0
      settle_broker healthy
