-- ===== src/Upgrade/Defs.antt =====
-- services/upgrade_manager.py: the task record, the commands that are sent, and the answers that
-- several parts of it read.
use tantor_v.Prelude.{
  ℕ, String, Bool, true, false, ◌&&◌, not, Option, none, some, List, [], ◌∷◌, ◌++◌, ◌==◌, length,
  filter,
}
use tantor_v.Prelude.Text.{strip, concat, split}
use tantor_v.Prelude.Exec.{Exec}
use tantor_v.Models.{Cluster, Service, Role, broker, broker_controller, set_status}
use tantor_v.Remote.{World, Reply, on_db}

-- The shell commands, and `put` for the copy of the archive over SFTP: the local path and the name
-- of the archive.
pub data Command : Type 0 where
  stop start is_active listening : Command
  backup_install backup_config restore_config fix_ownership : Command
  extract : String → String → Command
  remove_temp : String → Command
  put : String → String → Command
  under_replicated under_replicated_quietly zookeeper_controller : Command
  kraft_metadata : String → Command

-- The text that `exec_command` is given, where the installation stands in `home`; for `put`, the
-- path on the other machine.
shell : String → Command → String
shell home stop = "sudo systemctl stop kafka"
shell home start = "sudo systemctl start kafka"
shell home is_active = "systemctl is-active kafka"
shell home listening = "ss -tlnp | grep ':9092' | head -1"
shell home backup_install =
    concat ("sudo cp -r " ∷ home ∷ " " ∷ home ∷ ".bak.$(date +%Y%m%d%H%M%S)" ∷ [])
shell home backup_config = concat ("sudo cp -r " ∷ home ∷ "/config /tmp/kafka_config_backup" ∷ [])
shell home restore_config =
    concat ("sudo cp -r /tmp/kafka_config_backup/* " ∷ home ∷ "/config/" ∷ [])
shell home fix_ownership =
    concat ("sudo chown -R kafka:kafka " ∷ home ∷ " 2>/dev/null || true" ∷ [])
shell home (extract tarball_name target_version) = concat (
    "sudo rm -rf " ∷ home ∷ " && sudo tar xzf /tmp/" ∷ tarball_name
    ∷ " -C /opt/ && sudo mv /opt/kafka_*-" ∷ target_version ∷ " " ∷ home ∷ [])
shell home (remove_temp tarball_name) =
    concat ("sudo rm -rf /tmp/" ∷ tarball_name ∷ " /tmp/kafka_config_backup" ∷ [])
shell home (put path tarball_name) = concat ("/tmp/" ∷ tarball_name ∷ [])
shell home under_replicated = concat (
    home
    ∷ "/bin/kafka-topics.sh --bootstrap-server localhost:9092 --describe --under-replicated-partitions"
    ∷ [])
shell home under_replicated_quietly = concat (
    home
    ∷ "/bin/kafka-topics.sh --bootstrap-server localhost:9092 --describe --under-replicated-partitions 2>/dev/null"
    ∷ [])
shell home zookeeper_controller = concat (
    home
    ∷ "/bin/zookeeper-shell.sh localhost:2181 <<< 'get /controller' 2>/dev/null | head -3 || echo 'zk-check-done'"
    ∷ [])
shell home (kraft_metadata uuid) = concat (
    home
    ∷ "/bin/kafka-metadata.sh --snapshot /var/lib/kafka/data/__cluster_metadata-0/00000000000000000000.log --cluster-id "
    ∷ uuid ∷ " 2>/dev/null | head -5 || echo 'metadata-check-done'" ∷ [])

pub data Level : Type 0 where
  info warning error : Level

-- An entry of `_upgrade_tasks`, without its times.
pub record Task : Type 0 where
  pub status : String
  pub logs : List (Level × String)
  pub current : ℕ
  pub total : ℕ
  pub phase : String
  pub error_text : Option String

unfoldable pub init_upgrade_task : Task
init_upgrade_task = record {
  status = "running";
  logs = [];
  current = 0;
  total = 0;
  phase = "initializing";
  error_text = none;
}

-- The entry of the task, if there is one, and the rows; each change of a row is committed at once.
pub record UpgradeDb : Type 0 where
  pub task : Option Task
  pub clusters : List Cluster
  pub services : List Service

abbrev pub W : Type 0
W = World Command UpgradeDb

abbrev pub on_task : (Task → Task) → Option Task → Option Task
on_task f none = none
on_task f (some t) = some (f t)

abbrev pub update_task : (Task → Task) → Exec W (Unit {0})
update_task f = on_db λ d. record d { task = on_task f d.task }

-- `_log`
abbrev pub log : Level → String → Exec W (Unit {0})
log level message = update_task λ t. record t { logs = t.logs ++ (level, message) ∷ [] }

-- `_set_phase`, which every caller gives both numbers.
abbrev pub set_phase : String → ℕ → ℕ → Exec W (Unit {0})
set_phase phase current total =
    update_task λ t. record t { phase = phase; current = current; total = total }

-- `svc.status = status` and the commit.
abbrev pub set_service_status : String → String → Exec W (Unit {0})
set_service_status id status = on_db λ d. record d { services = set_status id status d.services }

-- `stdout.strip() == "active"`
abbrev pub says_active : Reply → Bool
says_active r = strip r.stdout == "active"

-- The number of the lines that list under-replicated partitions.
unfoldable pub partition_lines : String → ℕ
partition_lines stdout = length (filter (λ l. not (strip l == "")) (split 10 (strip stdout)))

-- `Service.role.in_(["broker", "broker_controller"])`
abbrev pub is_broker : Role → Bool
is_broker broker = true
is_broker broker_controller = true
is_broker _ = false

-- The rows of the brokers of a cluster.
abbrev pub brokers_of : String → List Service → List Service
brokers_of cluster_id services =
    filter (λ s. s.cluster_id == cluster_id && is_broker s.role) services
