-- ===== src/Upgrade/PreCheck.antt =====
-- services/upgrade_manager.py: `pre_upgrade_check`. Each of its five checks is a definition of its
-- own, which gives the entry of the report and whether `overall_ok` may stay true.
use tantor_v.Prelude.{
  ℕ, String, Bool, true, false, ◌&&◌, Option, none, some, List, [], ◌∷◌, ◌==◌, eqb, length,
  if◌then◌else◌,
}
use tantor_v.Prelude.Text.{concat, decimal, take_text, int_text}
use tantor_v.Prelude.Exec.{Exec, pure, raise, gets, try_except, ◌>>=◌, ◌>>◌}
use tantor_v.Models.{Cluster, Service, Host, or_text, find_host, find_cluster}
use tantor_v.Remote.{Machines, Reply, succeeded, connect, exec_command}
use tantor_v.Upgrade.Defs.{
  Command, is_active, under_replicated, zookeeper_controller, kraft_metadata, W, partition_lines,
  brokers_of,
}
use tantor_v.Upgrade.Repo.{list_repo_versions, not_found}
use tantor_v.Upgrade.Checks.{
  Site, BrokerStatus, Check, Report, entry, check_version, check_binary, broker_status,
  healthy_count,
}

-- "running_broker_host": the first one whose service row says so.
unfoldable pub running_broker_host : List Host → List Service → Option Host
running_broker_host hosts [] = none
running_broker_host hosts (svc ∷ rest) =
    let later = running_broker_host hosts rest in
    elim (find_host svc.host_id hosts) [
      | none ↦ later
      | some host ↦ if svc.status == "running" then some host else later
    ]

module _ (net : Machines Command) where
  -- The loop's body for a service whose host is known.
  unfoldable pub look_at_broker : ℕ → Host → Exec W BrokerStatus
  look_at_broker node_id host =
      try_except
        (do
          connect net host
          r ← exec_command net host is_active
          pure (broker_status node_id host r))
        λ e. pure (record {
          node_id = node_id;
          host = host.ip_address;
          hostname = some host.hostname;
          status = "error";
          healthy = false;
          error = some e.text;
        })

  -- `for svc in services`, with `all_healthy`.
  unfoldable pub check_brokers : List Host → List Service → Exec W (List BrokerStatus × Bool)
  check_brokers hosts [] = pure ([], true)
  check_brokers hosts (svc ∷ rest) = elim (find_host svc.host_id hosts) [
    | none ↦ do
      (statuses, all_healthy) ← check_brokers hosts rest
      let unknown : BrokerStatus = record {
        node_id = svc.node_id;
        host = "unknown";
        hostname = none;
        status = "error";
        healthy = false;
        error = none;
      }
      pure (unknown ∷ statuses, false)
    | some host ↦ do
      b ← look_at_broker svc.node_id host
      (statuses, all_healthy) ← check_brokers hosts rest
      pure (b ∷ statuses, if b.healthy then all_healthy else false)
  ]

  -- 3. Check all brokers are healthy
  unfoldable pub check_broker_health : List Host → List Service → Exec W (Check × Bool)
  check_broker_health hosts [] =
      pure (entry "broker_health" false "No broker services found for this cluster", false)
  check_broker_health hosts (svc ∷ rest) = do
    (statuses, all_healthy) ← check_brokers hosts (svc ∷ rest)
    let message = concat (
        decimal (healthy_count statuses)
        ∷ "/"
        ∷ decimal (length statuses)
        ∷ " brokers healthy"
        ∷ [])
    pure (
      record (entry "broker_health" all_healthy message) { details = statuses },
      if all_healthy then true else false,
    )

  -- The message, the number of partitions and `isr_ok`.
  abbrev isr_entry : String → ℕ → Bool → Check × Bool
  isr_entry message count isr_ok = (
    record (entry "isr_status" isr_ok message) { under_replicated_partitions = some count },
    if isr_ok then true else false,
  )

  abbrev pub judge_isr : Reply → Check × Bool
  judge_isr r =
      let count = partition_lines r.stdout in
      if succeeded r
      then (if eqb count 0
          then isr_entry "No under-replicated partitions" 0 true
          else isr_entry (concat (decimal count ∷ " under-replicated partition(s) found" ∷ []))
              count false)
      else isr_entry
          (concat (
            "ISR check command returned exit code "
            ∷ int_text r.exit_code
            ∷ (if r.stderr == "" then [] else ": " ∷ take_text 200 r.stderr ∷ [])))
          0 false

  -- 4. Check ISR status
  unfoldable pub check_isr : Option Host → Exec W (Check × Bool)
  check_isr none = pure (isr_entry "No running broker available to check ISR status" 0 false)
  check_isr (some host) =
      try_except
        (do connect net host; r ← exec_command net host under_replicated; pure (judge_isr r))
        λ e. pure (isr_entry (concat ("Failed to check ISR: " ∷ e.text ∷ [])) 0 false)

  abbrev controller_entry : String → Bool → Check × Bool
  controller_entry message controller_ok =
      (entry "controller_status" controller_ok message, if controller_ok then true else false)

  abbrev controller_command : Cluster → Command
  controller_command cluster =
      if cluster.mode == "kraft"
      then kraft_metadata (or_text cluster.cluster_uuid "unknown")
      else zookeeper_controller

  abbrev controller_message : Cluster → String
  controller_message cluster =
      if cluster.mode == "kraft"
      then "KRaft metadata accessible"
      else "ZooKeeper controller info accessible"

  -- 5. Check controller status: only an exception fails it, the reply is not read.
  unfoldable pub check_controller : Cluster → Option Host → Exec W (Check × Bool)
  check_controller cluster none =
      pure (controller_entry "No running broker available to check controller" false)
  check_controller cluster (some host) =
      try_except
        (do
          connect net host
          r ← exec_command net host (controller_command cluster)
          pure (controller_entry (controller_message cluster) true))
        λ e. pure (controller_entry (concat ("Failed to check controller: " ∷ e.text ∷ [])) false)

module _ {V : Type 0} (site : Site V) (hosts : List Host) where
  unfoldable pub check_cluster : Cluster → String → List Service → Exec W Report
  check_cluster cluster target_version services = do
    let (c1, ok1) = check_version site.versions cluster.kafka_version target_version
    files ← gets (λ w. site.files w.trace)
    let (c2, ok2) = check_binary site.kafka_repo_dir target_version (list_repo_versions files [])
    (c3, ok3) ← check_broker_health site.net hosts services
    (c4, ok4) ← check_isr site.net (running_broker_host hosts services)
    (c5, ok5) ← check_controller site.net cluster (running_broker_host hosts services)
    pure (record {
      cluster_id = cluster.id;
      cluster_name = cluster.name;
      current_version = cluster.kafka_version;
      target_version = target_version;
      ready = ok1 && ok2 && ok3 && ok4 && ok5;
      checks = c1 ∷ c2 ∷ c3 ∷ c4 ∷ c5 ∷ [];
    })

  -- `pre_upgrade_check`
  unfoldable pub pre_upgrade_check : String → String → Exec W Report
  pre_upgrade_check cluster_id target_version = do
    cluster ← gets (λ w. find_cluster cluster_id w.db.clusters)
    services ← gets (λ w. brokers_of cluster_id w.db.services)
    elim cluster [
      | none ↦ raise (not_found cluster_id)
      | some c ↦ check_cluster c target_version services
    ]
