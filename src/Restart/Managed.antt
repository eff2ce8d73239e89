-- ===== src/Restart/Managed.antt =====
-- services/rolling_restart_manager.py: `RollingRestartManager.rolling_restart` and what only it
-- uses. Each nested block of the method is a definition of its own.
use tantor_v.Prelude.{ℕ, String, Bool, true, false, ◌&&◌, some, [], ◌∷◌, ◌==◌, if◌then◌else◌}
use tantor_v.Prelude.Text.{concat, decimal, take_text}
use tantor_v.Prelude.Exec.{Failure, Exec, pure, try_except, ◌>>=◌, ◌>>◌}
use tantor_v.Models.{
  Cluster, Service, Host, Role, broker, broker_controller, controller, zookeeper, ksqldb,
  kafka_connect, has_managed_kind, set_status,
}
use tantor_v.ClusterPaths.{Settings, install_dir, unit_name}
use tantor_v.Remote.{Machines, succeeded, connect, exec_command, on_db}
use tantor_v.Restart.Defs.{
  Command, start, W, log, set_task_status, commit, is_broker, cluster_listener_port,
  check_broker_health, wait_for_isr, shut_down, await_healthy,
}

-- `SERVICE_TYPE_MAP.get(role, "kafka")`
unfoldable pub service_type : Role → String
service_type controller = "kafka-kraft-controller"
service_type ksqldb = "ksqldb"
service_type kafka_connect = "kafka-connect"
service_type _ = "kafka"

-- `role in KAFKA_ROLES`
unfoldable pub is_kafka_role : Role → Bool
is_kafka_role broker = true
is_kafka_role broker_controller = true
is_kafka_role controller = true
is_kafka_role zookeeper = true
is_kafka_role _ = false

-- `_unit_for_service`
unfoldable pub unit_for_service : Cluster → Service → String
unfolding service_type is_kafka_role
unit_for_service cluster svc =
    if has_managed_kind cluster && is_kafka_role svc.role
    then unit_name cluster
    else concat (service_type svc.role ∷ ".service" ∷ [])

-- `svc.role in role_filter`, with the filter that `restart_scope` selects.
unfoldable pub in_scope : String → Role → Bool
in_scope scope role =
    if scope == "brokers"
    then is_broker role
    else if scope == "controllers"
    then (elim role [ controller ↦ true | _ ↦ false ])
    else (elim role [ Role.schema_registry ↦ false | Role.other _ ↦ false | _ ↦ true ])

-- `order.get(role, 3)`
unfoldable pub restart_order : Role → ℕ
restart_order controller = 0
restart_order zookeeper = 0
restart_order broker_controller = 1
restart_order broker = 1
restart_order ksqldb = 2
restart_order kafka_connect = 2
restart_order _ = 3

-- Whether the loop goes on to the next service, or the method returns.
pub data Flow : Type 0 where
  next halt : Flow

abbrev pub set_service_status : String → String → Exec W (Unit {0})
set_service_status id status = on_db λ d. record d { session = set_status id status d.session }

abbrev pub set_progress : ℕ → String → Exec W (Unit {0})
set_progress current label =
    on_db λ d. record d { task = record d.task { current = current; current_broker = some label } }

module _ (net : Machines Command) (settings : Settings) (cluster : Cluster) (svc : Service)
    (host : Host) where
  abbrev node : String
  node = decimal svc.node_id

  -- Step 5: only brokers wait for their replicas, and the outcome is only logged.
  unfoldable pub recover_isr : Exec W (Unit {0})
  recover_isr =
      if is_broker svc.role
      then (do
        log "  Waiting for ISR recovery..."
        isr_ok ←
            wait_for_isr net host 24 (install_dir settings cluster) (cluster_listener_port cluster)
        log (
            if isr_ok
            then "  ✓ ISR recovery complete"
            else "  ⚠ ISR recovery timeout — proceeding cautiously"))
      else pure tt

  -- The verdict after step 4.
  unfoldable pub conclude : Bool → Exec W Flow
  conclude true = do
    log (concat ("  ✓ Node " ∷ node ∷ " restarted successfully" ∷ []))
    set_service_status svc.id "running"
    recover_isr
    log ""
    pure next
  conclude false = do
    log (concat ("  ✗ Node " ∷ node ∷ " failed health check after restart" ∷ []))
    set_service_status svc.id "error"
    set_task_status "error"
    commit
    pure halt

  -- Steps 3 and 4.
  unfoldable pub bring_up : String → Exec W Flow
  bring_up unit = do
    log (concat ("  Starting " ∷ unit ∷ "..." ∷ []))
    r ← exec_command net host (start unit)
    if succeeded r
        then (do
          log "  Waiting for service to become healthy..."
          healthy ←
              await_healthy net host 60 (is_broker svc.role) unit (cluster_listener_port cluster)
          conclude healthy)
        else (do
          log (concat ("  ✗ Start failed: " ∷ take_text 200 r.stderr ∷ []))
          set_task_status "error"
          pure halt)

  -- The block under `with SSHManager.connect(…)`.
  unfoldable pub restart_connected : Exec W Flow
  restart_connected = do
    connect net host
    log "  Pre-restart health check..."
    healthy ←
        check_broker_health net host svc.role (install_dir settings cluster)
          (cluster_listener_port cluster)
    if healthy then pure tt else log "  ⚠ Broker not healthy before restart, proceeding anyway"
    shut_down net host (unit_for_service cluster svc)
    bring_up (unit_for_service cluster svc)

  -- The `except Exception as e` of the loop's body.
  unfoldable pub service_failed : Failure → Exec W Flow
  service_failed e = do
    log (concat ("  ✗ Error: " ∷ e.text ∷ []))
    set_service_status svc.id "error"
    set_task_status "error"
    commit
    pure halt

  unfoldable pub restart_service : Exec W Flow
  restart_service = try_except restart_connected service_failed
