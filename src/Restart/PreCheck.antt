-- ===== src/Restart/PreCheck.antt =====
-- services/rolling_restart_manager.py: `get_pre_restart_check` and `get_pre_restart_check_external`.
use tantor_v.Prelude.{
  ℕ, String, Bool, false, ◌&&◌, Option, none, some, List, [], ◌∷◌, ◌==◌, all, filter, length,
  if◌then◌else◌,
}
use tantor_v.Prelude.Int.{ℤ}
use tantor_v.Prelude.Text.{decimal}
use tantor_v.Prelude.Exec.{Failure, Exec, pure, raise, try_except, ◌>>=◌, ◌>>◌}
use tantor_v.Models.{Cluster, Service, Host, find_host}
use tantor_v.ClusterPaths.{Settings, install_dir}
use tantor_v.Remote.{Machines, connect}
use tantor_v.Restart.Defs.{
  Command, W, is_broker, cluster_listener_port, check_service_running, check_kafka_port,
  check_broker_health,
}
use tantor_v.Restart.External.{
  reported_id, BrokerEntry, BrokerHosts, read_external_broker_hosts, external_port, entry_unit,
  key_error,
}

-- An entry of "checks"; the broker's id stands as its text, and may be missing.
pub record Check : Type 0 where
  pub broker_id : Option String
  pub host : String
  pub healthy : Bool
  pub message : String

pub record CheckReport : Type 0 where
  pub cluster_name : String
  pub broker_count : ℕ
  pub all_healthy : Bool
  pub checks : List Check

abbrev pub unknown_host : Option String → Check
unknown_host id = record {
  broker_id = id;
  host = "unknown";
  healthy = false;
  message = "Host not found";
}

abbrev pub checked : Option String → Host → Bool → Check
checked id host healthy = record {
  broker_id = id;
  host = host.ip_address;
  healthy = healthy;
  message = if healthy then "Healthy" else "Unhealthy";
}

abbrev pub unchecked : Option String → Host → Failure → Check
unchecked id host e = record {
  broker_id = id;
  host = host.ip_address;
  healthy = false;
  message = e.text;
}

abbrev value_error : String → Failure
value_error text = record { class_name = "ValueError"; text = text }

module _ (net : Machines Command) (hosts : List Host) where
  unfoldable pub check_service_host : Settings → Cluster → Service → Host → Exec W Check
  check_service_host settings cluster svc host =
      try_except
        (do
          connect net host
          healthy ←
              check_broker_health net host svc.role (install_dir settings cluster)
                (cluster_listener_port cluster)
          port_ok ← check_kafka_port net host (cluster_listener_port cluster)
          pure (checked (some (decimal svc.node_id)) host (healthy && port_ok)))
        (λ e. pure (unchecked (some (decimal svc.node_id)) host e))

  unfoldable pub check_services : Settings → Cluster → List Service → Exec W (List Check)
  check_services settings cluster [] = pure []
  check_services settings cluster (svc ∷ rest) = do
    c ← elim (find_host svc.host_id hosts) [
      | none ↦ pure (unknown_host (some (decimal svc.node_id)))
      | some host ↦ check_service_host settings cluster svc host
    ]
    later ← check_services settings cluster rest
    pure (c ∷ later)

  -- The services of the cluster are selected by id and role.
  unfoldable pub get_pre_restart_check :
      Settings → Option Cluster → List Service → Exec W CheckReport
  get_pre_restart_check settings none services = raise (value_error "Cluster not found")
  get_pre_restart_check settings (some cluster) services = do
    let brokers = filter (λ s. s.cluster_id == cluster.id && is_broker s.role) services
    checks ← check_services settings cluster brokers
    pure (record {
      cluster_name = cluster.name;
      broker_count = length brokers;
      all_healthy = all (λ c. c.healthy) checks;
      checks = checks;
    })

  unfoldable pub check_entry_host : ℤ → BrokerEntry → Host → Exec W Check
  check_entry_host port entry host =
      try_except
        (do
          connect net host
          svc_running ← check_service_running net host (entry_unit entry)
          port_ok ← check_kafka_port net host port
          pure (checked (reported_id entry) host (svc_running && port_ok)))
        (λ e. pure (unchecked (reported_id entry) host e))

  -- `entry["host_id"]` stands outside the `try`.
  unfoldable pub check_entries : ℤ → List BrokerEntry → Exec W (List Check)
  check_entries port [] = pure []
  check_entries port (entry ∷ rest) = do
    c ← elim entry.host_id [
      | none ↦ raise (key_error net port)
      | some id ↦ elim (find_host id hosts) [
        | none ↦ pure (unknown_host (reported_id entry))
        | some host ↦ check_entry_host port entry host
      ]
    ]
    later ← check_entries port rest
    pure (c ∷ later)

  abbrev all_and_some : List Check → Bool
  all_and_some [] = false
  all_and_some (c ∷ rest) = all (λ c. c.healthy) (c ∷ rest)

  unfoldable pub get_pre_restart_check_external :
      Option (Cluster × BrokerHosts) → Exec W CheckReport
  get_pre_restart_check_external none = raise (value_error "External cluster not found")
  get_pre_restart_check_external (some (cluster, column)) = do
    let entries = read_external_broker_hosts column
    checks ← check_entries (external_port cluster) entries
    pure (record {
      cluster_name = cluster.name;
      broker_count = length entries;
      all_healthy = all_and_some checks;
      checks = checks;
    })
