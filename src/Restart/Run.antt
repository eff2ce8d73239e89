-- ===== src/Restart/Run.antt =====
-- services/rolling_restart_manager.py: the loop of `rolling_restart` over the services, and the
-- method around it.
use tantor_v.Prelude.{ℕ, ◌+◌, String, ◌&&◌, Option, none, some, List, [], ◌∷◌, ◌==◌, length, filter}
use tantor_v.Prelude.Sort.{sort_by}
use tantor_v.Prelude.Dict.{Dict, lookup, insert}
use tantor_v.Prelude.Text.{concat, decimal}
use tantor_v.Prelude.Exec.{Failure, Exec, pure, try_except, ◌>>=◌, ◌>>◌}
use tantor_v.Models.{
  Cluster, Service, Host, Role, broker, broker_controller, controller, zookeeper, ksqldb,
  kafka_connect, schema_registry, other, find_host, find_cluster,
}
use tantor_v.ClusterPaths.{Settings}
use tantor_v.Remote.{Event, Machines, on_db}
use tantor_v.Restart.Defs.{Command, Task, W, log, set_task_status, commit}
use tantor_v.Restart.Managed.{
  Flow, next, halt, in_scope, restart_order, set_progress, restart_service,
}

unfoldable pub role_text : Role → String
role_text broker = "broker"
role_text broker_controller = "broker_controller"
role_text controller = "controller"
role_text zookeeper = "zookeeper"
role_text ksqldb = "ksqldb"
role_text kafka_connect = "kafka_connect"
role_text schema_registry = "schema_registry"
role_text (other s) = s

abbrev restart_title : ℕ → ℕ → Service → Host → String
restart_title number total svc host = concat (
    "━━━ ["
    ∷ decimal number
    ∷ "/"
    ∷ decimal total
    ∷ "] Restarting "
    ∷ role_text svc.role
    ∷ " node "
    ∷ decimal svc.node_id
    ∷ " on "
    ∷ host.ip_address
    ∷ " ━━━"
    ∷ [])

abbrev broker_label : Service → Host → String
broker_label svc host = concat ("Node " ∷ decimal svc.node_id ∷ " (" ∷ host.ip_address ∷ ")" ∷ [])

-- The outer `except Exception as e`.
abbrev pub fail_task : Failure → Exec W (Unit {0})
fail_task e = do log (concat ("ERROR: " ∷ e.text ∷ [])); set_task_status "error"

module _ (net : Machines Command) (settings : Settings) where
  -- One pass of the loop whose host is known.
  unfoldable pub restart_numbered : Cluster → ℕ → ℕ → Service → Host → Exec W Flow
  restart_numbered cluster total idx svc host = do
    set_progress (idx + 1) (broker_label svc host)
    log (restart_title (idx + 1) total svc host)
    restart_service net settings cluster svc host

  -- `for idx, svc in enumerate(services)`
  unfoldable pub restart_services : Cluster → List Host → ℕ → ℕ → List Service → Exec W Flow
  restart_services cluster hosts total idx [] = pure next
  restart_services cluster hosts total idx (svc ∷ rest) = elim (find_host svc.host_id hosts) [
    | none ↦
        log (concat ("⚠ Skipping service " ∷ svc.id ∷ " — host not found" ∷ []))
        >> restart_services cluster hosts total (idx + 1) rest
    | some host ↦ restart_numbered cluster total idx svc host >>= λ flow. elim flow [
      | next ↦ restart_services cluster hosts total (idx + 1) rest
      | halt ↦ pure halt
    ]
  ]

  -- What follows the loop, unless it returned from the method.
  unfoldable pub finish : ℕ → Flow → Exec W (Unit {0})
  finish total halt = pure tt
  finish total next = do
    commit
    log "━━━━━━━━━━━━━━━━━━━━━━━━━━━━━━━━━━━━"
    log (
        concat (
          "✓ Rolling restart completed successfully — "
          ∷ decimal total
          ∷ " service(s) restarted"
          ∷ []))
    set_task_status "completed"

  unfoldable pub restart_sorted : Cluster → String → List Host → List Service → Exec W (Unit {0})
  restart_sorted cluster scope hosts services = do
    on_db λ d. record d { task = record d.task { total = length services } }
    log (
        concat (
          "Starting rolling restart of "
          ∷ decimal (length services)
          ∷ " service(s) — scope: "
          ∷ scope
          ∷ []))
    log (concat ("Cluster: " ∷ cluster.name ∷ []))
    log ""
    flow ← restart_services cluster hosts (length services) 0 services
    finish (length services) flow

  unfoldable pub restart_selected : Cluster → String → List Host → List Service → Exec W (Unit {0})
  restart_selected cluster scope hosts [] = do
    log "No services found matching the restart scope"
    set_task_status "completed"
  restart_selected cluster scope hosts (svc ∷ rest) =
      restart_sorted cluster scope hosts (sort_by (λ s. restart_order s.role) (svc ∷ rest))

  unfoldable pub restart_cluster :
      Option Cluster → String → List Host → List Service → Exec W (Unit {0})
  restart_cluster none scope hosts services = do
    log "ERROR: Cluster not found"
    set_task_status "error"
  restart_cluster (some cluster) scope hosts services =
      restart_selected cluster scope hosts
        (filter (λ s. s.cluster_id == cluster.id && in_scope scope s.role) services)

  -- The body of the method, on the task that it found.
  unfoldable pub run_restart :
      Option Cluster → String → List Host → List Service → Exec W (Unit {0})
  run_restart cluster scope hosts services =
      try_except (restart_cluster cluster scope hosts services) fail_task

-- The tasks in memory, the tables, and the machines' history.
pub record Panel : Type 0 where
  pub tasks : Dict Task
  pub clusters : List Cluster
  pub hosts : List Host
  pub services : List Service
  pub trace : List (Event Command)

abbrev pub loaded : Panel → Task → W
loaded p task = record {
  trace = p.trace;
  db = record { task = task; session = p.services; stored = p.services };
}

abbrev pub saved : Panel → String → W → Panel
saved p task_id w = record p {
  tasks = insert task_id w.db.task p.tasks;
  services = w.db.stored;
  trace = w.trace;
}

-- `rolling_restart`: the entry of `_restart_tasks` is shared, so it is read and put back; rows that
-- were not committed are lost with the session.
unfoldable pub rolling_restart :
    Machines Command → Settings → String → String → String → Panel → Panel
rolling_restart net settings cluster_id task_id scope p = elim (lookup task_id p.tasks) [
  | none ↦ p
  | some task ↦
      saved p task_id
        (run_restart net settings (find_cluster cluster_id p.clusters) scope p.hosts p.services
          (loaded p task)).1
]
