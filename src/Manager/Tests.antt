-- ===== src/Manager/Tests.antt =====
-- Runs of the cluster's lifecycle, and the theorems at concrete inputs.
use tantor_v.Prelude.{
  ℕ, ◌+◌, ◌*◌, ◌<◌, ◌≤◌, String, ◌≡◌, ◌≢◌, ◌↔◌, ◌⊎◌, All, refl, true, false, List, [], ◌∷◌, none,
  some, ◌==◌, all, arith,
}
use tantor_v.Prelude.Int.{pos}
use tantor_v.Prelude.Text.{strip, concat, lower}
use tantor_v.Prelude.Exec.{Result, ok, Post, pure, ◌>>=◌}
use tantor_v.Models.{Cluster, Service, Host, Role, absent, broker, controller}
use tantor_v.Remote.{Event, ran, asked, slept, Machines, Reply, result, exec_command}
use tantor_v.Restart.Managed.{unit_for_service}
use tantor_v.Manager.Units.{is_core_role, start_order, stop_order, unit_candidates}
use tantor_v.Manager.Ssh.{
  Command, cat, is_active, W, cleanup_units, unit_exists, unit_state, stop_unit, out_of_fuel,
  wait_ports_released,
}
use tantor_v.Manager.Lifecycle.{start_service, start_cluster, stop_cluster}
use tantor_v.Manager.Started.{after_start, EndsAs, start_cluster-EndsAs}
use tantor_v.Manager.Stopped.{after_stop, stop_cluster-EndsAs}
use tantor_v.Manager.Quiet.{IsQuiet, stop_unit-IsQuiet}
use tantor_v.Manager.Deadline.{IsClock, wait_ports_released-terminates}
use tantor_v.Manager.Status.{core_statuses}
use tantor_v.Manager.Synced.{state_after, sync_state-running}
use tantor_v.Manager.Order.{start_order-reverses}
use tantor_v.Manager.Chosen.{started, start_service-unit_for_service, start_service-controller}

abbrev host : String → Host
host id = record { id = id; hostname = id; ip_address = "10.0.0.1" }

abbrev service : String → String → Role → Service
service id host_id role = record {
  id = id;
  cluster_id = "c";
  host_id = host_id;
  role = role;
  node_id = 1;
  status = "running";
}

abbrev cluster : Cluster
cluster = record {
  id = "c";
  name = "prod";
  kafka_version = "3.7.0";
  mode = "kraft";
  state = "stopped";
  config_json = absent;
  cluster_uuid = none;
  kind = "managed";
  bootstrap_servers = none;
  ssl_enabled = false;
  kafka_install_dir = none;
  kafka_data_dir = none;
  kafka_unit_name = some "kafka-prod-c.service";
}

-- A clock that only sleeping moves.
abbrev ticks : List (Event Command) → ℕ
ticks [] = 0
ticks (slept n ∷ earlier) = ticks earlier + n * 1000
ticks (ran h c r ∷ earlier) = ticks earlier
ticks (asked h op r ∷ earlier) = ticks earlier

abbrev answer : Command → Result Reply
answer (cat unit) = ok (record { exit_code = pos 1; stdout = ""; stderr = "" })
answer (is_active unit) = ok (record { exit_code = pos 3; stdout = "inactive"; stderr = "" })
answer _ = ok (record { exit_code = pos 0; stdout = ""; stderr = "" })

-- Hosts on which no unit exists and every other command succeeds.
abbrev net : Machines Command
net = record {
  connect = λ t h. none;
  run = λ t h c. answer c;
  agent_connected = λ t h. false;
  ask = λ t h op. ok (result none none none);
  clock = ticks;
}

net-IsClock : IsClock net
net-IsClock = (later, λ n t. omega arith)
  where
    later : (e : Event Command) (t : List (Event Command)) → ticks t ≤ ticks (e ∷ t)
    later (slept n) t = omega arith
    later (ran h c r) t = omega arith
    later (asked h op r) t = omega arith

abbrev world : W
world = record {
  trace = [];
  db = record {
    clusters = cluster ∷ [];
    services = service "s1" "h1" broker ∷ service "s2" "h2" controller ∷ [];
    messages = [];
    success = true;
    verify_ports = false;
  };
}

abbrev hosts : List Host
hosts = host "h1" ∷ host "h2" ∷ []

start_cluster-EndsAs_example :
    EndsAs after_start "running" "c"
      (λ s. start_order s.role)
      world.db
      (start_cluster hosts net "c" world)
start_cluster-EndsAs_example = start_cluster-EndsAs net hosts "c" world

stop_cluster-EndsAs_example :
    EndsAs after_stop "stopped" "c"
      (λ s. stop_order s.role)
      world.db
      (stop_cluster hosts net "c" world)
stop_cluster-EndsAs_example = stop_cluster-EndsAs net hosts "c" world

abbrev stopped : W
stopped = (stop_unit net (host "h1") "kafka.service" false world).1

stop_unit-IsQuiet_example : IsQuiet (host "h1") "kafka.service" stopped.trace
unfolding stop_unit unit_exists unit_state exec_command ◌>>=◌ pure strip concat
stop_unit-IsQuiet_example =
    stop_unit-IsQuiet net (host "h1") "kafka.service" "kafka.service not present" false world
      stopped refl

wait_ports_released-terminates_example :
    (wait_ports_released net (host "h1") (pos 9092 ∷ []) world).0 ≢ ok out_of_fuel
wait_ports_released-terminates_example =
    wait_ports_released-terminates net net-IsClock (host "h1") (pos 9092 ∷ []) world

sync_state-running_example :
    (state_after cluster (service "s1" "h1" broker ∷ []) == "running")
    ≡ all (λ s. s == "running") (core_statuses (service "s1" "h1" broker ∷ []))
unfolding core_statuses is_core_role
sync_state-running_example =
    sync_state-running cluster (service "s1" "h1" broker ∷ []) refl refl some_core
  where
    some_core : lower "running" ∷ [] ≢ []
    some_core e = cc

start_order-reverses_example :
    (start_order controller < start_order broker) ↔ (stop_order broker < stop_order controller)
start_order-reverses_example = start_order-reverses controller broker (λ t e. cc) (λ t e. cc)

-- Machines that have every unit.
abbrev stocked : Machines Command
stocked = record net {
  run = λ t h c. ok (record { exit_code = pos 0; stdout = "active"; stderr = "" });
}

start_service-unit_for_service_example :
    started
      (start_service stocked (some cluster) (service "s1" "h1" broker) (host "h1") world).1.trace
    ≡ "kafka-prod-c.service" ∷ started world.trace
unfolding unit_for_service
start_service-unit_for_service_example =
    start_service-unit_for_service stocked (host "h1") cluster (service "s1" "h1" broker) world
      (record { exit_code = pos 0; stdout = "active"; stderr = "" }) refl (λ t e. cc) (λ e. cc)
      (λ e. cc) refl refl

start_service-controller_example :
    (unit_for_service cluster (service "s2" "h2" controller) ≡ "kafka-prod-c.service")
    × ((started
            (start_service stocked
              (some cluster)
              (service "s2" "h2" controller)
              (host "h2")
              world).1.trace
          ≡ started world.trace)
        ⊎ (started
              (start_service stocked
                (some cluster)
                (service "s2" "h2" controller)
                (host "h2")
                world).1.trace
            ≡ "kafka.service" ∷ started world.trace))
    × Post
        (λ found _. All (λ x. x.0 ≡ "kafka.service") found)
        (λ _. Unit)
        (cleanup_units stocked (host "h2") (unit_candidates (some cluster) controller) world)
start_service-controller_example =
    start_service-controller stocked (host "h2") cluster (service "s2" "h2" controller) world refl
      refl
