-- ===== src/Upgrade/Tests.antt =====
-- Runs of upgrades, and the theorems at concrete inputs.
use tantor_v.Prelude.{
  ℕ, String, ◌≡◌, refl, ◌⊎◌, true, false, List, Option, none, some, [], ◌∷◌, ltb, All, length, ◌==◌,
  if◌then◌else◌,
}
use tantor_v.Prelude.Int.{pos}
use tantor_v.Prelude.Sort.{sort_with, sort_by}
use tantor_v.Prelude.Text.{strip, split, strip_prefix, concat, decimal}
use tantor_v.Prelude.Exec.{gets, pure, try_except, ◌>>=◌, Result, ok, raised}
use tantor_v.Models.{Host, broker, broker_controller}
use tantor_v.Remote.{exec_command, connect, Machines, result}
use tantor_v.Restart.Tests.{host, service, cluster}
use tantor_v.Upgrade.Defs.{
  Command, is_active, listening, W, brokers_of, init_upgrade_task, partition_lines,
}
use tantor_v.Upgrade.Repo.{
  Upgrades, get_available_upgrades, offered, is_offered, list_repo_versions, match_tgz, Versions,
}
use tantor_v.Upgrade.Checks.{check_version, check_binary, Site, Report}
use tantor_v.Upgrade.PreCheck.{
  check_cluster, check_broker_health, check_brokers, look_at_broker, check_isr, check_controller,
  running_broker_host, pre_upgrade_check,
}
use tantor_v.Upgrade.Run.{rolling_upgrade}
use tantor_v.Upgrade.Offers.{Passes, get_available_upgrades-Passes}
use tantor_v.Upgrade.Looks.{AreOf, IsSeen, are_passed, are_healthy, details_of}
use tantor_v.Upgrade.Ready.{pre_upgrade_check-ready}
use tantor_v.Upgrade.Outcome.{Completed, Failed}
use tantor_v.Upgrade.Promise.{rolling_upgrade-EndsAs}

-- Brokers that are always active and listening, and have no partition to recover.
abbrev stdout_of : Command → String
stdout_of is_active = "active"
stdout_of listening = "LISTEN"
stdout_of _ = ""

abbrev obedient : Machines Command
obedient = record {
  connect = λ t h. none;
  run = λ t h c. ok (record { exit_code = pos 0; stdout = stdout_of c; stderr = "" });
  agent_connected = λ t h. false;
  ask = λ t h op. ok (result none none none);
  clock = λ t. 0;
}

-- Versions read from a short table.
abbrev number : String → Option ℕ
number s = if s == "3.7.0" then some 37 else if s == "3.8.0" then some 38 else none

abbrev versions : Versions ℕ
versions = record {
  parse = number;
  le = λ a b. if ltb b a then false else true;
  lt = ltb;
  major = λ v. 3;
}

abbrev site : Site ℕ
site = record {
  net = obedient;
  files = λ t.
      record {
        name = "kafka_2.13-3.8.0.tgz";
        path = "/repo/kafka_2.13-3.8.0.tgz";
        size_mb = "115.0";
      }
      ∷ [];
  versions = versions;
  kafka_repo_dir = "/repo";
}

abbrev hosts : List Host
hosts = host "h1" ∷ host "h2" ∷ []

abbrev before : W
before = record {
  trace = [];
  db = record {
    task = some init_upgrade_task;
    clusters = cluster ∷ [];
    services = service "s1" "h1" broker ∷ service "s2" "h2" broker_controller ∷ [];
  };
}

partition_lines_lem : partition_lines "a\n\n b \n" ≡ 2
unfolding partition_lines split strip
partition_lines_lem = refl

rolling_upgrade-EndsAs_example :
    Completed "c" "3.8.0" ("h2" ∷ "h1" ∷ []) (rolling_upgrade site hosts "c" "3.8.0" before).1
    ⊎ Failed "c" "3.7.0" (rolling_upgrade site hosts "c" "3.8.0" before).1
unfolding sort_by
rolling_upgrade-EndsAs_example =
    rolling_upgrade-EndsAs site hosts "c" "3.8.0" before cluster [] refl refl

abbrev report_in : Report → Result Report → Report
report_in d (ok r) = r
report_in d (raised e) = d

abbrev blank : Report
blank = record {
  cluster_id = "";
  cluster_name = "";
  current_version = "";
  target_version = "";
  ready = false;
  checks = [];
}

abbrev report : Report
report = report_in blank (pre_upgrade_check site hosts "c" "3.8.0" before).0

pre_upgrade_check-ready_example :
    (are_passed report.checks ≡ true)
    × (ltb 0 (length (brokers_of "c" before.db.services)) ≡ true)
    × (are_healthy (details_of report.checks) ≡ true)
    × AreOf hosts (details_of report.checks) (brokers_of "c" before.db.services)
    × All
        (λ s. IsSeen hosts (pre_upgrade_check site hosts "c" "3.8.0" before).1.trace s)
        (brokers_of "c" before.db.services)
unfolding pre_upgrade_check check_cluster check_version check_binary check_broker_health
    check_brokers look_at_broker check_isr check_controller running_broker_host list_repo_versions
    match_tgz strip_prefix concat strip split partition_lines decimal ◌>>=◌ pure gets try_except
    exec_command connect
pre_upgrade_check-ready_example =
    pre_upgrade_check-ready site hosts "c" "3.8.0" before
      (pre_upgrade_check site hosts "c" "3.8.0" before).1 report refl refl

abbrev offers : Upgrades
offers = record {
  cluster_id = "c";
  cluster_name = "prod";
  current_version = "3.7.0";
  available_upgrades =
      record {
        version = "3.8.0";
        scala_version = "2.13";
        filename = "kafka_2.13-3.8.0.tgz";
        size_mb = "115.0";
      }
      ∷ [];
}

apart : (a b : ℕ) → ltb a b ≡ true → (if ltb a b then false else true) ≡ false
apart a b h = rw h refl

get_available_upgrades-Passes_example :
    All
      (Passes versions "/repo" (list_repo_versions (site.files []) []) "3.7.0")
      offers.available_upgrades
unfolding get_available_upgrades list_repo_versions match_tgz strip_prefix concat offered is_offered
    sort_with
get_available_upgrades-Passes_example =
    get_available_upgrades-Passes versions "/repo" (site.files []) "c" (cluster ∷ []) offers apart
      refl
