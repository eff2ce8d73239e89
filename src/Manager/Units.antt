-- ===== src/Manager/Units.antt =====
-- services/cluster_manager.py: the pure helpers. Which unit a service runs in, which ports it holds,
-- and in which order services are stopped and started.
use tantor_v.Prelude.{
  ℕ, String, Bool, true, false, ◌&&◌, ◌||◌, not, Option, none, some, List, [], ◌∷◌, ◌++◌, ◌==◌, any,
  filter, if◌then◌else◌,
}
use tantor_v.Prelude.Int.{ℤ, pos, is_positive}
use tantor_v.Prelude.Dict.{Dict, lookup}
use tantor_v.Models.{
  Cluster, Service, absent, malformed, object, Role, broker, broker_controller, controller,
  zookeeper, ksqldb, kafka_connect, schema_registry, other, has_managed_kind,
}
use tantor_v.ClusterPaths.{unit_name}
use tantor_v.Json.{Value, truthy, int_of}
use tantor_v.Ports.Checks.{is_set, sorted_ports}

-- `STOP_ORDER.get(role, 9)`
unfoldable pub stop_order : Role → ℕ
stop_order schema_registry = 0
stop_order kafka_connect = 1
stop_order ksqldb = 1
stop_order broker = 2
stop_order broker_controller = 2
stop_order controller = 3
stop_order zookeeper = 3
stop_order (other _) = 9

-- `START_ORDER.get(role, 9)`
unfoldable pub start_order : Role → ℕ
start_order controller = 0
start_order zookeeper = 0
start_order broker_controller = 1
start_order broker = 1
start_order ksqldb = 2
start_order kafka_connect = 2
start_order schema_registry = 3
start_order (other _) = 9

-- `role in KAFKA_ROLES`: the second assignment of the name is the one that counts.
unfoldable pub is_kafka_role : Role → Bool
is_kafka_role broker = true
is_kafka_role broker_controller = true
is_kafka_role zookeeper = true
is_kafka_role _ = false

-- `role in CORE_SERVICE_ROLES`
unfoldable pub is_core_role : Role → Bool
is_core_role broker = true
is_core_role broker_controller = true
is_core_role controller = true
is_core_role zookeeper = true
is_core_role _ = false

-- `LEGACY_KAFKA_UNITS.get(role, "kafka.service")`
unfoldable pub legacy_unit : Role → String
legacy_unit controller = "kafka-kraft-controller.service"
legacy_unit _ = "kafka.service"

-- `NON_KAFKA_UNITS.get(role, "kafka") + ".service"`
unfoldable pub non_kafka_unit : Role → String
non_kafka_unit ksqldb = "ksqldb.service"
non_kafka_unit kafka_connect = "kafka-connect.service"
non_kafka_unit schema_registry = "schema-registry.service"
non_kafka_unit _ = "kafka.service"

abbrev pub is_in : String → List String → Bool
is_in s seen = any (λ t. t == s) seen

unfoldable pub unique_from : List String → List String → List String
unique_from seen [] = []
unique_from seen (item ∷ rest) =
    let fresh = not (item == "") && not (is_in item seen) in
    let later = unique_from (if fresh then item ∷ seen else seen) rest in
    if fresh then item ∷ later else later

-- `_unique`
unfoldable pub unique : List String → List String
unfolding unique_from
unique items = unique_from [] items

-- `_is_managed`
unfoldable pub is_managed : Option Cluster → Bool
is_managed none = false
is_managed (some c) = has_managed_kind c

abbrev primary_units : Option Cluster → List String
primary_units none = []
primary_units (some c) = if has_managed_kind c then unit_name c ∷ [] else []

-- `_unit_candidates`
unfoldable pub unit_candidates : Option Cluster → Role → List String
unfolding is_kafka_role unique legacy_unit non_kafka_unit
unit_candidates cluster role =
    if is_kafka_role role
    then unique (primary_units cluster ++ legacy_unit role ∷ [])
    else non_kafka_unit role ∷ []

-- `candidates[0]`; the list is never empty.
abbrev pub first_of_candidates : List String → String
first_of_candidates [] = ""
first_of_candidates (u ∷ _) = u

-- `_unit_for`
unfoldable pub unit_for : Option Cluster → Role → String
unfolding unit_candidates
unit_for cluster role = first_of_candidates (unit_candidates cluster role)

-- `_cluster_config`
unfoldable pub cluster_config : Option Cluster → Dict Value
cluster_config none = []
cluster_config (some c) = elim c.config_json [ absent ↦ [] | malformed ↦ [] | object cfg ↦ cfg ]

abbrev or_default : ℕ → Option ℤ → ℤ
or_default default none = pos default
or_default default (some n) = n

-- `_int_config`: a missing, false or unreadable value gives the default.
unfoldable pub int_config : Dict Value → String → ℕ → ℤ
int_config config key default = elim (lookup key config) [
  | none ↦ pos default
  | some v ↦ if truthy v then or_default default (int_of v) else pos default
]

abbrev has_ssl : Option Cluster → Bool
has_ssl none = false
has_ssl (some c) = c.ssl_enabled

-- The ports of `_service_ports`, before they are sorted.
unfoldable pub role_ports : Dict Value → Bool → Role → List ℤ
unfolding int_config
role_ports config ssl role = elim role [
  | broker ↦
      int_config config "listener_port" 9092
      ∷ (if ssl then int_config config "ssl_listener_port" 9096 ∷ [] else [])
  | broker_controller ↦
      int_config config "listener_port" 9092
      ∷ ((if ssl then int_config config "ssl_listener_port" 9096 ∷ [] else [])
          ++ int_config config "controller_port" 9093 ∷ [])
  | controller ↦ int_config config "controller_port" 9093 ∷ []
  | ksqldb ↦ int_config config "ksqldb_port" 8088 ∷ []
  | kafka_connect ↦ int_config config "connect_rest_port" 8083 ∷ []
  | schema_registry ↦ int_config config "schema_registry_port" 8085 ∷ []
  | zookeeper ↦ []
  | other _ ↦ []
]

-- `_service_ports`
unfoldable pub service_ports : Option Cluster → Service → List ℤ
unfolding cluster_config role_ports
service_ports cluster svc = sorted_ports (
    filter is_positive (
      role_ports (cluster_config cluster)
        (is_set "ssl_enabled" (cluster_config cluster) || has_ssl cluster) svc.role))
