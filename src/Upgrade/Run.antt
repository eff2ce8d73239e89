-- ===== src/Upgrade/Run.antt =====
-- services/upgrade_manager.py: `rolling_upgrade` and `_do_rolling_upgrade` around its step 4.
use tantor_v.Prelude.{
  ℕ, ◌+◌, String, Bool, true, false, not, none, some, List, [], ◌∷◌, ◌==◌, length, filter, map,
  if◌then◌else◌,
}
use tantor_v.Prelude.Sort.{sort_by}
use tantor_v.Prelude.Dict.{lookup}
use tantor_v.Prelude.Text.{concat, join, decimal}
use tantor_v.Prelude.Exec.{Failure, Exec, pure, raise, gets, try_except, ◌>>=◌, ◌>>◌}
use tantor_v.Models.{Cluster, Service, Host, find_host, find_cluster}
use tantor_v.Remote.{Machines, connect, exec_command, on_db}
use tantor_v.Upgrade.Defs.{
  Command, is_active, info, warning, error, W, update_task, log, set_phase, says_active, brokers_of,
}
use tantor_v.Upgrade.Repo.{Tarball, list_repo_versions, not_found}
use tantor_v.Upgrade.Checks.{Site, Check, Report}
use tantor_v.Upgrade.PreCheck.{pre_upgrade_check}
use tantor_v.Upgrade.Broker.{upgrade_connected}

abbrev value_error : List String → Failure
value_error parts = record { class_name = "ValueError"; text = concat parts }

-- `cluster.state = …`, `cluster.kafka_version = …` on the row of this id, and the commit.
abbrev pub update_cluster : String → (Cluster → Cluster) → List Cluster → List Cluster
update_cluster id f [] = []
update_cluster id f (c ∷ rest) = if c.id == id then f c ∷ rest else c ∷ update_cluster id f rest

abbrev upgrade_title : ℕ → ℕ → Service → Host → String
upgrade_title number total svc host = concat (
    "--- Upgrading broker "
    ∷ decimal number
    ∷ "/"
    ∷ decimal total
    ∷ ": node "
    ∷ decimal svc.node_id
    ∷ " on "
    ∷ host.hostname
    ∷ " ("
    ∷ host.ip_address
    ∷ ") ---"
    ∷ [])

-- The text of the failed checks.
abbrev failed_messages : List Check → String
failed_messages checks = join "; " (map (λ c. c.message) (filter (λ c. not c.passed) checks))

module _ (net : Machines Command) where
  -- One pass of the loop of step 4.
  unfoldable pub upgrade_broker : List Host → Tarball → String → ℕ → ℕ → Service → Exec W (Unit {0})
  upgrade_broker hosts tarball target_version total number svc =
      elim (find_host svc.host_id hosts) [
        | none ↦ raise (value_error ("Host not found for service " ∷ svc.id ∷ []))
        | some host ↦ do
          log info (upgrade_title number total svc host)
          set_phase (concat ("upgrading_broker_" ∷ decimal svc.node_id ∷ [])) number total
          upgrade_connected svc net host tarball target_version
          set_phase (concat ("broker_" ∷ decimal svc.node_id ∷ "_complete" ∷ [])) number total
          log info
              (concat ("[Broker " ∷ decimal svc.node_id ∷ "] Upgrade completed successfully" ∷ []))
      ]

  -- `for idx, svc in enumerate(services)`
  unfoldable pub upgrade_brokers :
      List Host → Tarball → String → ℕ → ℕ → List Service → Exec W (Unit {0})
  upgrade_brokers hosts tarball target_version total idx [] = pure tt
  upgrade_brokers hosts tarball target_version total idx (svc ∷ rest) =
      upgrade_broker hosts tarball target_version total (idx + 1) svc
      >> upgrade_brokers hosts tarball target_version total (idx + 1) rest

  unfoldable pub look_again : Service → Host → Exec W Bool
  look_again svc host = do
    connect net host
    r ← exec_command net host is_active
    if says_active r
        then (do
          log info (concat ("Post-check: Broker " ∷ decimal svc.node_id ∷ " is running" ∷ []))
          pure true)
        else (do
          log warning (concat ("Post-check: Broker " ∷ decimal svc.node_id ∷ " is NOT active" ∷ []))
          pure false)

  -- One pass of the loop of step 6: whether `verification_ok` may stay true.
  unfoldable pub verify_broker : Service → Host → Exec W Bool
  verify_broker svc host = try_except (look_again svc host) λ e. do
    log warning
        (concat ("Post-check: Failed to verify broker " ∷ decimal svc.node_id ∷ ": " ∷ e.text ∷ []))
    pure false

  -- Step 6, with `verification_ok`.
  unfoldable pub verify_brokers : List Host → Bool → List Service → Exec W Bool
  verify_brokers hosts verification_ok [] = pure verification_ok
  verify_brokers hosts verification_ok (svc ∷ rest) = elim (find_host svc.host_id hosts) [
    | none ↦ verify_brokers hosts verification_ok rest
    | some host ↦ verify_broker svc host >>= λ fine.
        verify_brokers hosts (if fine then verification_ok else false) rest
  ]

-- Steps 5 to 7.
unfoldable pub conclude :
    Machines Command → List Host → String → String → List Service → Exec W (Unit {0})
conclude net hosts cluster_id target_version services = do
  log info "Updating cluster version in database..."
  on_db λ d. record d {
    clusters =
        update_cluster cluster_id
          (λ c. record c { kafka_version = target_version; state = "running" }) d.clusters;
  }
  log info (concat ("Cluster version updated to " ∷ target_version ∷ []))
  log info "Running post-upgrade verification..."
  set_phase "post_verification" (length services) (length services)
  verification_ok ← verify_brokers net hosts true services
  if verification_ok
      then log info "Post-upgrade verification passed: all brokers running"
      else log warning "Post-upgrade verification completed with warnings"
  update_task λ t. record t {
    status = "completed";
    phase = "completed";
    current = length services;
    total = length services;
  }
  log info (concat ("Rolling upgrade to Kafka " ∷ target_version ∷ " completed successfully" ∷ []))

-- Steps 3 to 7, with the brokers in the order of their nodes.
unfoldable pub upgrade_sorted :
    Machines Command → List Host → String → String → Tarball → List Service → Exec W (Unit {0})
upgrade_sorted net hosts cluster_id target_version tarball services = do
  set_phase "upgrading" 0 (length services)
  log info (concat ("Upgrading " ∷ decimal (length services) ∷ " broker(s) one at a time" ∷ []))
  on_db λ d. record d {
    clusters = update_cluster cluster_id (λ c. record c { state = "upgrading" }) d.clusters;
  }
  upgrade_brokers net hosts tarball target_version (length services) 0 services
  conclude net hosts cluster_id target_version services

module _ {V : Type 0} (site : Site V) (hosts : List Host) where
  -- Steps 2 and 3.
  unfoldable pub upgrade_checked : String → String → Exec W (Unit {0})
  upgrade_checked cluster_id target_version = do
    log info "Pre-upgrade validation passed"
    files ← gets (λ w. site.files w.trace)
    services ← gets (λ w. sort_by (λ s. s.node_id) (brokers_of cluster_id w.db.services))
    elim (lookup target_version (list_repo_versions files [])) [
      | none ↦
          raise (value_error ("Binary for version " ∷ target_version ∷ " not found in repo" ∷ []))
      | some tarball ↦ do
        log info
            (concat ("Using tarball: " ∷ tarball.filename ∷ " (" ∷ tarball.size_mb ∷ " MB)" ∷ []))
        upgrade_sorted site.net hosts cluster_id target_version tarball services
    ]

  -- What follows the pre-upgrade check.
  unfoldable pub upgrade_judged : String → String → Report → Exec W (Unit {0})
  upgrade_judged cluster_id target_version report =
      if report.ready
      then upgrade_checked cluster_id target_version
      else raise (value_error ("Pre-upgrade check failed: " ∷ failed_messages report.checks ∷ []))

  -- `_do_rolling_upgrade`
  unfoldable pub do_rolling_upgrade : String → String → Exec W (Unit {0})
  do_rolling_upgrade cluster_id target_version = do
    log info (concat ("Starting rolling upgrade to Kafka " ∷ target_version ∷ []))
    set_phase "pre_validation" 0 0
    log info "Running pre-upgrade validation..."
    cluster ← gets (λ w. find_cluster cluster_id w.db.clusters)
    elim cluster [
      | none ↦ raise (not_found cluster_id)
      | some c ↦
          pre_upgrade_check site hosts cluster_id target_version
          >>= upgrade_judged cluster_id target_version
    ]

  -- The `except Exception as e` of `rolling_upgrade`.
  unfoldable pub fail_upgrade : Failure → Exec W (Unit {0})
  fail_upgrade e = do
    log error (concat ("Upgrade failed with error: " ∷ e.text ∷ []))
    update_task λ t. record t { status = "failed"; error_text = some e.text; phase = "failed" }

  -- `rolling_upgrade`
  unfoldable pub rolling_upgrade : String → String → Exec W (Unit {0})
  rolling_upgrade cluster_id target_version =
      try_except (do_rolling_upgrade cluster_id target_version) fail_upgrade
