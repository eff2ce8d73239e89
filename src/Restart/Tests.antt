-- ===== src/Restart/Tests.antt =====
-- Runs of the rolling restart, and the theorems at concrete inputs.
use tantor_v.Prelude.{
  Bool, Option, List, String, ◌≡◌, ap, sym, refl, true, false, [], ◌∷◌, none, some,
}
use tantor_v.Prelude.Int.{pos}
use tantor_v.Prelude.Exec.{ok, raised}
use tantor_v.Prelude.Text.{strip}
use tantor_v.Prelude.Dict.{lookup}
use tantor_v.Models.{Cluster, Service, Host, Role, absent, broker, controller}
use tantor_v.ClusterPaths.{Settings}
use tantor_v.Remote.{Event, ran, Reply, Machines, result}
use tantor_v.Restart.Defs.{Command, stop, is_active, Task, init_restart_task}
use tantor_v.Restart.Managed.{in_scope}
use tantor_v.Restart.Run.{Panel, loaded, rolling_restart}
use tantor_v.Restart.External.{BrokerHosts, given_id, null_id, listed, rolling_restart_external}
use tantor_v.Restart.ExternalPromise.{rolling_restart_external-EndsWell}
use tantor_v.Restart.Live.{Obeys, told}
use tantor_v.Restart.Completes.{rolling_restart-AreObedient}
use tantor_v.Restart.PreCheck.{get_pre_restart_check}
use tantor_v.Restart.Harmless.{HasReported, get_pre_restart_check-HasReported}
use tantor_v.Restart.Promise.{EndsWell, rolling_restart-EndsWell}

abbrev pub host : String → Host
host id = record { id = id; hostname = id; ip_address = "10.0.0.1" }

abbrev pub service : String → String → Role → Service
service id host_id role = record {
  id = id;
  cluster_id = "c";
  host_id = host_id;
  role = role;
  node_id = 1;
  status = "running";
}

abbrev pub cluster : Cluster
cluster = record {
  id = "c";
  name = "prod";
  kafka_version = "3.7.0";
  mode = "kraft";
  state = "running";
  config_json = absent;
  cluster_uuid = none;
  kind = "managed";
  bootstrap_servers = none;
  ssl_enabled = false;
  kafka_install_dir = some "/opt/kafka-prod-c";
  kafka_data_dir = none;
  kafka_unit_name = some "kafka-prod-c.service";
}

abbrev pub settings : Settings
settings = record { kafka_install_dir = "/opt/kafka"; kafka_data_dir = "/var/lib/kafka/data" }

-- Machines on which every command succeeds and every unit is always active.
abbrev pub obedient : Machines Command
obedient = record {
  connect = λ t h. none;
  run = λ t h c. ok (record { exit_code = pos 0; stdout = "active"; stderr = "" });
  agent_connected = λ t h. false;
  ask = λ t h op. ok (result none none none);
  clock = λ t. 0;
}

abbrev pub panel : Panel
panel = record {
  tasks = ("t", init_restart_task) ∷ [];
  clusters = cluster ∷ [];
  hosts = host "h1" ∷ host "h2" ∷ [];
  services = service "s1" "h1" broker ∷ service "s2" "h2" controller ∷ [];
  trace = [];
}

rolling_restart-EndsWell_example :
    EndsWell true "t" (rolling_restart obedient settings "c" "t" "brokers" panel)
rolling_restart-EndsWell_example =
    rolling_restart-EndsWell obedient settings true "c" "t" "brokers" panel init_restart_task
      (λ _. refl) refl tt

abbrev external : Cluster
external = record cluster {
  id = "x";
  kind = "external";
  bootstrap_servers = some "10.0.0.1:9094,10.0.0.2:9094";
}

abbrev brokers : BrokerHosts
brokers = listed (
    record { host_id = some "h1"; kafka_unit = none; broker_id = given_id "1" }
    ∷ record { host_id = some "h2"; kafka_unit = some "kafka-2.service"; broker_id = null_id }
    ∷ [])

rolling_restart_external-EndsWell_example :
    EndsWell true "t" (rolling_restart_external obedient ((external, brokers) ∷ []) "x" "t" panel)
rolling_restart_external-EndsWell_example =
    rolling_restart_external-EndsWell obedient true ((external, brokers) ∷ []) "x" "t" panel
      init_restart_task refl tt

get_pre_restart_check-HasReported_example :
    HasReported cluster panel.services (loaded panel init_restart_task).db (
      get_pre_restart_check obedient panel.hosts settings
        (some cluster)
        panel.services
        (loaded panel init_restart_task))
get_pre_restart_check-HasReported_example =
    get_pre_restart_check-HasReported obedient panel.hosts settings cluster panel.services
      (loaded panel init_restart_task)

ok-injective : {x y : Reply} → ok x ≡ ok y → x ≡ y
ok-injective {x} e = ap (λ a. elim a [ ok z ↦ z | raised _ ↦ x ]) e

abbrev up_reply : Reply
up_reply = record { exit_code = pos 0; stdout = "active"; stderr = "" }

abbrev down_reply : Reply
down_reply = record { exit_code = pos 3; stdout = "inactive"; stderr = "" }

abbrev state_reply : Option Bool → Reply
state_reply (some true) = up_reply
state_reply _ = down_reply

abbrev reply_to : List (Event Command) → Host → Command → Reply
reply_to t h (is_active u) = state_reply (told h.id u t)
reply_to t h _ = up_reply

-- Machines on which a unit is active when the latest start or stop of it was a start.
abbrev faithful : Machines Command
faithful = record obedient { run = λ t h c. ok (reply_to t h c) }

-- Such a unit is inactive when it was stopped.
stopped_lem :
    faithful.run (ran (host "h1") (stop "u") (ok up_reply) ∷ []) (host "h1") (is_active "u")
    ≡ ok down_reply
stopped_lem = refl

faithful-Obeys : (svc : Service) (h : Host) → Obeys faithful cluster svc h
unfolding strip
faithful-Obeys svc h = record {
  connects = λ t. refl;
  answers = λ t c. (reply_to t h c, refl);
  starts = λ t r e. rw (sym (ok-injective e)) refl;
  shows = λ t r due e. rw (sym (ok-injective e), due.0) refl;
  accepts = λ t r b due e. rw (sym (ok-injective e)) refl;
}

rolling_restart-AreObedient_example :
    (t : Task) × (lookup "t" (rolling_restart faithful settings "c" "t" "all" panel).tasks ≡ some t)
    × (t.status ≡ "completed")
unfolding in_scope
rolling_restart-AreObedient_example =
    rolling_restart-AreObedient faithful settings "c" "t" "all" panel init_restart_task cluster
      (
        (λ h e. faithful-Obeys (service "s1" "h1" broker) h),
        ((λ h e. faithful-Obeys (service "s2" "h2" controller) h), tt),
      )
      refl refl
