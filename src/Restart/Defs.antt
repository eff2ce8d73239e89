-- ===== src/Restart/Defs.antt =====
-- services/rolling_restart_manager.py: the task record, the commands that are sent, and the steps
-- that the managed and the external restart share.
use tantor_v.Prelude.{
  ℕ, zero, suc, String, Bool, true, false, ◌&&◌, Option, none, some, List, [], ◌∷◌, ◌++◌, ◌==◌,
  if◌then◌else◌,
}
use tantor_v.Prelude.Int.{ℤ, pos}
use tantor_v.Prelude.Dict.{lookup}
use tantor_v.Prelude.Text.{strip, concat, take_text, int_text}
use tantor_v.Prelude.Exec.{Exec, pure, ◌>>=◌, ◌>>◌}
use tantor_v.Models.{
  Cluster, Service, Host, Role, broker, broker_controller, absent, malformed, object,
}
use tantor_v.Json.{Value, truthy, int_of}
use tantor_v.Remote.{Machines, World, succeeded, exec_command, sleep, on_db}

-- The shell commands; the port of a probe is the number that is put into the text.
pub data Command : Type 0 where
  stop start is_active : String → Command
  probe_port : ℤ → Command
  api_versions under_replicated : String → ℤ → Command

-- The text that `exec_command` is given.
shell : Command → String
shell (stop unit) = concat ("sudo systemctl stop " ∷ unit ∷ [])
shell (start unit) = concat ("sudo systemctl start " ∷ unit ∷ [])
shell (is_active unit) = concat ("systemctl is-active " ∷ unit ∷ [])
shell (probe_port port) =
    concat ("bash -c 'echo > /dev/tcp/localhost/" ∷ int_text port ∷ "' 2>/dev/null" ∷ [])
shell (api_versions home port) = concat (
    home
    ∷ "/bin/kafka-broker-api-versions.sh --bootstrap-server localhost:"
    ∷ int_text port
    ∷ " 2>/dev/null | head -1"
    ∷ [])
shell (under_replicated home port) = concat (
    home
    ∷ "/bin/kafka-topics.sh --bootstrap-server localhost:"
    ∷ int_text port
    ∷ " --describe --under-replicated-partitions 2>/dev/null"
    ∷ [])

-- An entry of `_restart_tasks`, with the fields of its "progress".
pub record Task : Type 0 where
  pub status : String
  pub logs : List String
  pub current : ℕ
  pub total : ℕ
  pub current_broker : Option String

unfoldable pub init_restart_task : Task
init_restart_task = record {
  status = "running";
  logs = [];
  current = 0;
  total = 0;
  current_broker = none;
}

-- The task, the service rows as the session sees them, and the rows that were last committed.
pub record RestartDb : Type 0 where
  pub task : Task
  pub session : List Service
  pub stored : List Service

abbrev pub W : Type 0
W = World Command RestartDb

abbrev pub log : String → Exec W (Unit {0})
log message = on_db λ d. record d { task = record d.task { logs = d.task.logs ++ message ∷ [] } }

abbrev pub set_task_status : String → Exec W (Unit {0})
set_task_status status = on_db λ d. record d { task = record d.task { status = status } }

abbrev pub commit : Exec W (Unit {0})
commit = on_db λ d. record d { stored = d.session }

abbrev pub is_broker : Role → Bool
is_broker broker = true
is_broker broker_controller = true
is_broker _ = false

abbrev int_or_default : Option ℤ → ℤ
int_or_default none = pos 9092
int_or_default (some n) = n

abbrev port_of : Option Value → ℤ
port_of none = pos 9092
port_of (some v) = if truthy v then int_or_default (int_of v) else pos 9092

-- `_cluster_listener_port`
unfoldable pub cluster_listener_port : Cluster → ℤ
cluster_listener_port cluster = elim cluster.config_json [
  | absent ↦ pos 9092
  | malformed ↦ pos 9092
  | object cfg ↦ port_of (lookup "listener_port" cfg)
]

module _ (net : Machines Command) (host : Host) where
  -- `_check_service_running`
  unfoldable pub check_service_running : String → Exec W Bool
  check_service_running unit = do
    r ← exec_command net host (is_active unit)
    pure (strip r.stdout == "active")

  -- `_check_kafka_port`
  unfoldable pub check_kafka_port : ℤ → Exec W Bool
  check_kafka_port port = do r ← exec_command net host (probe_port port); pure (succeeded r)

  -- `_check_broker_health`
  unfoldable pub check_broker_health : Role → String → ℤ → Exec W Bool
  check_broker_health role home port =
      if is_broker role
      then (do r ← exec_command net host (api_versions home port); pure (succeeded r))
      else pure true

  -- `_wait_for_isr`: `max_wait // 5` rounds are left.
  unfoldable pub wait_for_isr : ℕ → String → ℤ → Exec W Bool
  wait_for_isr zero home port = pure false
  wait_for_isr (suc rounds) home port = do
    r ← exec_command net host (under_replicated home port)
    elim (succeeded r && strip r.stdout == "") [
      | true ↦ pure true
      | false ↦ sleep 5 >> wait_for_isr rounds home port
    ]

  -- The loop after `systemctl stop`, with the rounds that are left.
  unfoldable pub await_stopped : ℕ → String → Exec W (Unit {0})
  await_stopped zero unit = pure tt
  await_stopped (suc rounds) unit = do
    r ← exec_command net host (is_active unit)
    elim (strip r.stdout == "active") [
      | true ↦ sleep 1 >> await_stopped rounds unit
      | false ↦ pure tt
    ]

  -- Steps 2 and the wait behind it: the exit code of the stop is only logged.
  unfoldable pub shut_down : String → Exec W (Unit {0})
  shut_down unit = do
    log (concat ("  Stopping " ∷ unit ∷ "..." ∷ []))
    r ← exec_command net host (stop unit)
    if succeeded r
        then pure tt
        else log (concat ("  ⚠ Stop warning: " ∷ take_text 200 r.stderr ∷ []))
    log "  Waiting for graceful shutdown..."
    await_stopped 30 unit
    log "  Service stopped"

  -- One look at the unit, and at its port if it must accept connections.
  unfoldable pub check_up : Bool → String → ℤ → Exec W Bool
  check_up needs_port unit port = do
    running ← check_service_running unit
    if running then (if needs_port then check_kafka_port port else pure true) else pure false

  -- The loop after `systemctl start`, with the attempts that are left.
  unfoldable pub await_healthy : ℕ → Bool → String → ℤ → Exec W Bool
  await_healthy zero needs_port unit port = pure false
  await_healthy (suc attempts) needs_port unit port = do
    sleep 1
    up ← check_up needs_port unit port
    elim up [ true ↦ pure true | false ↦ await_healthy attempts needs_port unit port ]
