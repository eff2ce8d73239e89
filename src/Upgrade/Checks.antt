-- ===== src/Upgrade/Checks.antt =====
-- services/upgrade_manager.py: the entries of the report of `pre_upgrade_check`, and the checks of
-- it that ask no machine. Each check gives its entry and whether `overall_ok` may stay true.
use tantor_v.Prelude.{
  ℕ, ◌+◌, String, Bool, true, false, Option, none, some, List, [], ◌∷◌, ltb, length, filter,
  if◌then◌else◌,
}
use tantor_v.Prelude.Dict.{Dict, lookup}
use tantor_v.Prelude.Text.{concat}
use tantor_v.Models.{Host}
use tantor_v.Remote.{Machines, Event, Reply}
use tantor_v.Upgrade.Defs.{Command, says_active}
use tantor_v.Upgrade.Repo.{Versions, RepoFile, Tarball}

-- What stays outside: the machines, the files of the repository, which may change at any time, the
-- versions, and the two directories of the settings.
pub record Site (V : Type 0) : Type 0 where
  pub net : Machines Command
  pub files : List (Event Command) → List RepoFile
  pub versions : Versions V
  pub kafka_repo_dir : String

pub record BrokerStatus : Type 0 where
  pub node_id : ℕ
  pub host : String
  pub hostname : Option String
  pub status : String
  pub healthy : Bool
  pub error : Option String

-- An entry of "checks"; the keys that only some entries have are optional.
pub record Check : Type 0 where
  pub check : String
  pub passed : Bool
  pub message : String
  pub warning : Bool
  pub details : List BrokerStatus
  pub under_replicated_partitions : Option ℕ

pub record Report : Type 0 where
  pub cluster_id : String
  pub cluster_name : String
  pub current_version : String
  pub target_version : String
  pub ready : Bool
  pub checks : List Check

abbrev pub entry : String → Bool → String → Check
entry check passed message = record {
  check = check;
  passed = passed;
  message = message;
  warning = false;
  details = [];
  under_replicated_partitions = none;
}

abbrev warned : Check → Check
warned c = record c { warning = true }

abbrev from_to : String → String → String → String
from_to current target rest = concat ("Upgrade from " ∷ current ∷ " to " ∷ target ∷ rest ∷ [])

module _ {V : Type 0} (versions : Versions V) (current_version target_version : String) where
  abbrev compare_parsed : V → V → Check × Bool
  compare_parsed current_v target_v =
      if versions.le target_v current_v
      then (
        entry "version_comparison" false (
            concat (
              "Target version " ∷ target_version ∷ " is not newer than current version "
              ∷ current_version ∷ [])),
        false,
      )
      else if ltb (versions.major current_v + 1) (versions.major target_v)
      then (
        warned (
            entry "version_comparison" true (
              from_to current_version target_version
                " (major version jump — review release notes carefully)")),
        true,
      )
      else (entry "version_comparison" true (from_to current_version target_version ""), true)

  abbrev compare_unparsed : Check × Bool
  compare_unparsed = (
    warned (
        entry "version_comparison" true
          (from_to current_version target_version " (version format could not be fully parsed)")),
    true,
  )

  -- 1. Version comparison
  unfoldable pub check_version : Check × Bool
  check_version = elim (versions.parse current_version) [
    | none ↦ compare_unparsed
    | some current_v ↦ elim (versions.parse target_version) [
      | none ↦ compare_unparsed
      | some target_v ↦ compare_parsed current_v target_v
    ]
  ]

-- 2. Check target version binary exists in repo
unfoldable pub check_binary : String → String → Dict Tarball → Check × Bool
check_binary kafka_repo_dir target_version repo_versions =
    elim (lookup target_version repo_versions) [
      | some info ↦ (
        entry "binary_available" true
            (concat ("Binary " ∷ info.filename ∷ " found (" ∷ info.size_mb ∷ " MB)" ∷ [])),
        true,
      )
      | none ↦ (
        entry "binary_available" false (
            concat (
              "Binary for version " ∷ target_version ∷ " not found in repo (" ∷ kafka_repo_dir ∷ ")"
              ∷ [])),
        false,
      )
    ]

abbrev pub broker_status : ℕ → Host → Reply → BrokerStatus
broker_status node_id host r = record {
  node_id = node_id;
  host = host.ip_address;
  hostname = some host.hostname;
  status = if says_active r then "running" else "stopped";
  healthy = says_active r;
  error = none;
}

abbrev pub healthy_count : List BrokerStatus → ℕ
healthy_count statuses = length (filter (λ b. b.healthy) statuses)
