-- ===== src/Restart/External.antt =====
-- services/rolling_restart_manager.py: `rolling_restart_external`, for clusters whose brokers the
-- operator has registered.
use tantor_v.Prelude.{
  ℕ, ◌+◌, String, Bool, true, false, ◌&&◌, Option, none, some, List, [], ◌∷◌, ◌==◌, length,
  if◌then◌else◌,
}
use tantor_v.Prelude.Int.{ℤ, pos}
use tantor_v.Prelude.Dict.{lookup}
use tantor_v.Prelude.Text.{concat, decimal, take_text, strip, partition, rpartition_colon}
use tantor_v.Prelude.Exec.{Failure, Exec, pure, raise, try_except, ◌>>=◌, ◌>>◌}
use tantor_v.Models.{Cluster, Host, find_host}
use tantor_v.Json.{int_of_text}
use tantor_v.Remote.{Machines, succeeded, connect, exec_command, sleep, on_db}
use tantor_v.Restart.Defs.{
  Command, start, W, log, set_task_status, check_kafka_port, shut_down, await_healthy,
}
use tantor_v.Restart.Managed.{Flow, next, halt, set_progress}
use tantor_v.Restart.Run.{Panel, loaded, saved, fail_task}

-- The key "broker_id" of an entry: missing, null, or a value, which stands as its text.
pub data BrokerId : Type 0 where
  missing_id null_id : BrokerId
  given_id : String → BrokerId

-- An entry of `external_broker_hosts_json`; a key may be missing.
pub record BrokerEntry : Type 0 where
  pub host_id : Option String
  pub kafka_unit : Option String
  pub broker_id : BrokerId

-- The column: NULL or empty, not JSON, or a list of entries.
pub data BrokerHosts : Type 0 where
  unlisted unreadable : BrokerHosts
  listed : List BrokerEntry → BrokerHosts

-- `_read_external_broker_hosts`
unfoldable pub read_external_broker_hosts : BrokerHosts → List BrokerEntry
read_external_broker_hosts unlisted = []
read_external_broker_hosts unreadable = []
read_external_broker_hosts (listed entries) = entries

-- `s.split(",")[0]`
abbrev first_server : String → String
first_server s = elim (partition "," s) [ none ↦ s | some (first, rest) ↦ first ]

abbrev port_or_default : Option ℤ → ℤ
port_or_default none = pos 9092
port_or_default (some n) = n

-- `ext_port`: the port of the first bootstrap server.
unfoldable pub external_port : Cluster → ℤ
external_port cluster = elim cluster.bootstrap_servers [
  | none ↦ pos 9092
  | some servers ↦
      if servers == ""
      then pos 9092
      else port_or_default (int_of_text (rpartition_colon (strip (first_server servers))))
]

-- `entry.get("kafka_unit", "kafka.service")`
unfoldable pub entry_unit : BrokerEntry → String
entry_unit entry = elim entry.kafka_unit [ none ↦ "kafka.service" | some unit ↦ unit ]

-- `entry.get("broker_id", "?")`, as text.
unfoldable pub entry_id : BrokerEntry → String
entry_id entry = elim entry.broker_id [ missing_id ↦ "?" | null_id ↦ "None" | given_id id ↦ id ]

-- `entry.get("broker_id")`
abbrev pub reported_id : BrokerEntry → Option String
reported_id entry = elim entry.broker_id [
  | missing_id ↦ none
  | null_id ↦ none
  | given_id id ↦ some id
]

abbrev pub broker_text : BrokerEntry → Host → String
broker_text entry host = concat ("broker " ∷ entry_id entry ∷ " on " ∷ host.ip_address ∷ [])

module _ (net : Machines Command) (port : ℤ) where
  module _ (entry : BrokerEntry) (host : Host) where
    -- The verdict after step 4, and the pause of step 5.
    unfoldable pub conclude_external : Bool → Exec W Flow
    conclude_external true = do
      log (concat ("  ✓ " ∷ broker_text entry host ∷ " restarted successfully" ∷ []))
      log "  Stabilization pause (15s)..."
      sleep 15
      log ""
      pure next
    conclude_external false = do
      log (concat ("  ✗ " ∷ broker_text entry host ∷ " failed health check after restart" ∷ []))
      set_task_status "error"
      pure halt

    -- Steps 3 and 4.
    unfoldable pub bring_up_external : String → Exec W Flow
    bring_up_external unit = do
      log (concat ("  Starting " ∷ unit ∷ "..." ∷ []))
      r ← exec_command net host (start unit)
      if succeeded r
          then (do
            log "  Waiting for service to become healthy..."
            healthy ← await_healthy net host 60 true unit port
            conclude_external healthy)
          else (do
            log (concat ("  ✗ Start failed: " ∷ take_text 200 r.stderr ∷ []))
            set_task_status "error"
            pure halt)

    -- The block under `with SSHManager.connect(…)`.
    unfoldable pub restart_entry_connected : Exec W Flow
    restart_entry_connected = do
      connect net host
      log "  Pre-restart health check..."
      port_ok ← check_kafka_port net host port
      if port_ok
          then pure tt
          else log "  ⚠ Broker port not reachable before restart, proceeding anyway"
      shut_down net host (entry_unit entry)
      bring_up_external (entry_unit entry)

    unfoldable pub entry_failed : Failure → Exec W Flow
    entry_failed e = do
      log (concat ("  ✗ Error: " ∷ e.text ∷ []))
      set_task_status "error"
      pure halt

    -- One pass of the loop whose host is known.
    unfoldable pub restart_entry : ℕ → ℕ → Exec W Flow
    restart_entry total idx = do
      set_progress (idx + 1)
          (concat ("Broker " ∷ entry_id entry ∷ " (" ∷ host.ip_address ∷ ")" ∷ []))
      log (
          concat (
            "━━━ ["
            ∷ decimal (idx + 1)
            ∷ "/"
            ∷ decimal total
            ∷ "] Restarting "
            ∷ broker_text entry host
            ∷ " ━━━"
            ∷ []))
      try_except restart_entry_connected entry_failed

  -- `entry["host_id"]` on an entry without the key.
  abbrev pub key_error : Failure
  key_error = record { class_name = "KeyError"; text = "'host_id'" }

  -- `for idx, entry in enumerate(entries)`
  unfoldable pub restart_entries : List Host → ℕ → ℕ → List BrokerEntry → Exec W Flow
  restart_entries hosts total idx [] = pure next
  restart_entries hosts total idx (entry ∷ rest) = elim entry.host_id [
    | none ↦ raise key_error
    | some id ↦ elim (find_host id hosts) [
      | none ↦
          log (concat ("⚠ Skipping broker — host " ∷ take_text 8 id ∷ " not found" ∷ []))
          >> restart_entries hosts total (idx + 1) rest
      | some host ↦ restart_entry entry host total idx >>= λ flow. elim flow [
        | next ↦ restart_entries hosts total (idx + 1) rest
        | halt ↦ pure halt
      ]
    ]
  ]

-- What follows the loop, unless it returned from the method; nothing is committed here.
unfoldable pub finish_external : ℕ → Flow → Exec W (Unit {0})
finish_external total halt = pure tt
finish_external total next = do
  log "━━━━━━━━━━━━━━━━━━━━━━━━━━━━━━━━━━━━"
  log (
      concat (
        "✓ Rolling restart completed successfully — "
        ∷ decimal total
        ∷ " broker(s) restarted"
        ∷ []))
  set_task_status "completed"

module _ (net : Machines Command) (hosts : List Host) where
  unfoldable pub restart_listed : Cluster → List BrokerEntry → Exec W (Unit {0})
  restart_listed cluster [] = do
    log "ERROR: No broker hosts registered for this external cluster"
    set_task_status "error"
  restart_listed cluster (entry ∷ rest) = do
    on_db λ d. record d { task = record d.task { total = length (entry ∷ rest) } }
    log (
        concat (
          "Starting rolling restart of "
          ∷ decimal (length (entry ∷ rest))
          ∷ " external broker(s)"
          ∷ []))
    log (concat ("Cluster: " ∷ cluster.name ∷ []))
    log ""
    flow ←
        restart_entries net (external_port cluster) hosts (length (entry ∷ rest)) 0 (entry ∷ rest)
    finish_external (length (entry ∷ rest)) flow

  unfoldable pub restart_external : Option (Cluster × BrokerHosts) → Exec W (Unit {0})
  restart_external none = do log "ERROR: External cluster not found"; set_task_status "error"
  restart_external (some (cluster, column)) =
      restart_listed cluster (read_external_broker_hosts column)

  -- The body of the method, on the task that it found.
  unfoldable pub run_restart_external : Option (Cluster × BrokerHosts) → Exec W (Unit {0})
  run_restart_external found = try_except (restart_external found) fail_task

-- `db.query(Cluster).filter(Cluster.id == id, Cluster.kind == "external").first()`, with the column
-- `external_broker_hosts_json` of each cluster.
abbrev pub find_external : String → List (Cluster × BrokerHosts) → Option (Cluster × BrokerHosts)
find_external id [] = none
find_external id (row ∷ rest) =
    if row.0.id == id && row.0.kind == "external" then some row else find_external id rest

unfoldable pub rolling_restart_external :
    Machines Command → List (Cluster × BrokerHosts) → String → String → Panel → Panel
rolling_restart_external net rows cluster_id task_id p = elim (lookup task_id p.tasks) [
  | none ↦ p
  | some task ↦
      saved p task_id
        (run_restart_external net p.hosts (find_external cluster_id rows) (loaded p task)).1
]
