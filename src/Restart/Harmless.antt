-- ===== src/Restart/Harmless.antt =====
-- services/rolling_restart_manager.py: the check before a restart looks and changes nothing.
use tantor_v.Prelude.{
  ◌≡◌, refl, ◌&&◌, Option, none, some, List, [], ◌∷◌, ◌==◌, all, map, filter, length,
}
use tantor_v.Prelude.Text.{decimal}
use tantor_v.Prelude.Exec.{
  Result, ok, raised, pure, continue, ◌>>=◌, Post, Post-both, Triple, Triple-pure, Triple-bind,
  Triple-either, Triple-try, Triple-fact,
}
use tantor_v.Models.{Cluster, Service, Host, find_host}
use tantor_v.ClusterPaths.{Settings}
use tantor_v.Remote.{Machines, exec_command, Triple-exec_command, Triple-connect}
use tantor_v.Restart.Defs.{Command, RestartDb, W, is_broker, check_kafka_port, check_broker_health}
use tantor_v.Restart.PreCheck.{
  Check, CheckReport, unknown_host, check_service_host, check_services, get_pre_restart_check,
}

module _ (net : Machines Command) (d : RestartDb) where
  abbrev Same : W → Type 0
  Same w = w.db ≡ d

  exec_command-Same :
      (host : Host) (c : Command) → Triple Same (exec_command net host c) (λ _. Same) Same
  exec_command-Same host c = Triple-exec_command net host c (λ w r h. Post-both Same Same r _ h h)

  abbrev About : Service → Check → Type 0
  About svc c = c.broker_id ≡ some (decimal svc.node_id)

  module _ (hosts : List Host) (settings : Settings) (cluster : Cluster) where
    check_service_host-Triple :
        (svc : Service) (host : Host)
        → Triple Same
            (check_service_host net hosts settings cluster svc host)
            (λ c w. About svc c × Same w)
            (λ _. ⊥)
    unfolding check_service_host check_broker_health check_kafka_port
    check_service_host-Triple svc host =
        Triple-try _ _
          (Triple-bind _ _
            (Triple-connect {R = λ _. Same} net host (λ w r h. Post-both Same Same r w h h))
            λ _.
              Triple-bind {R = λ _. Same} _ _
                (Triple-either (is_broker svc.role) _ _
                  (Triple-bind _ _ (exec_command-Same host _) (λ r. Triple-pure _ (λ w h. h)))
                  (Triple-pure _ (λ w h. h)))
                λ healthy.
                  Triple-bind {R = λ _. Same} _ _
                    (Triple-bind _ _ (exec_command-Same host _) (λ r. Triple-pure _ (λ w h. h)))
                    λ port_ok. Triple-pure _ (λ w h. (refl, h)))
          (λ e. Triple-pure _ (λ w h. (refl, h)))

    found-Triple :
        (svc : Service) (found : Option Host)
        → Triple Same
            (elim found [
              | none ↦ pure (unknown_host (some (decimal svc.node_id)))
              | some host ↦ check_service_host net hosts settings cluster svc host
            ])
            (λ c w. About svc c × Same w)
            (λ _. ⊥)
    found-Triple svc none = Triple-pure _ (λ w h. (refl, h))
    found-Triple svc (some host) = check_service_host-Triple svc host

    check_services-Triple :
        (services : List Service)
        → Triple Same
            (check_services net hosts settings cluster services)
            (λ cs w.
              (map (λ c. c.broker_id) cs ≡ map (λ s. some (decimal s.node_id)) services) × Same w)
            (λ _. ⊥)
    unfolding check_services
    check_services-Triple [] = Triple-pure [] (λ w h. (refl, h))
    check_services-Triple (svc ∷ rest) =
        Triple-bind _ _ (found-Triple svc (find_host svc.host_id hosts)) λ c. Triple-fact λ same.
          Triple-bind _ _ (check_services-Triple rest)
            λ later. Triple-pure (c ∷ later) (λ w h. (rw (same, h.0) refl, h.1))

abbrev pub brokers_of : Cluster → List Service → List Service
brokers_of cluster services = filter (λ s. s.cluster_id == cluster.id && is_broker s.role) services

-- The run returned a report with one check for each broker of the cluster, in their order, and left
-- the task and the rows as they were.
abbrev pub HasReported : Cluster → List Service → RestartDb → Result CheckReport × W → Type 0
HasReported cluster services d end =
    (report : CheckReport) × (end.0 ≡ ok report)
    × (map (λ c. c.broker_id) report.checks
        ≡ map (λ s. some (decimal s.node_id)) (brokers_of cluster services))
    × (report.broker_count ≡ length (brokers_of cluster services))
    × (report.all_healthy ≡ all (λ c. c.healthy) report.checks)
    × (end.1.db ≡ d)

-- However the machines answer, the check before the restart of an existing cluster returns a report
-- with one check for each broker of the cluster, and changes neither the task nor the rows.
pub get_pre_restart_check-HasReported :
    (net : Machines Command) (hosts : List Host) (settings : Settings) (cluster : Cluster)
    (services : List Service) (w : W)
    → HasReported cluster services w.db
        (get_pre_restart_check net hosts settings (some cluster) services w)
unfolding get_pre_restart_check ◌>>=◌ pure
get_pre_restart_check-HasReported net hosts settings cluster services w =
    reported (check_services net hosts settings cluster (brokers_of cluster services) w) (
      (check_services-Triple net w.db hosts settings cluster (brokers_of cluster services)).at w
        refl)
  where
    reported :
        (x : Result (List Check) × W)
        → Post
            (λ cs w'.
              (map (λ c. c.broker_id) cs
                ≡ map (λ s. some (decimal s.node_id)) (brokers_of cluster services))
              × (w'.db ≡ w.db))
            (λ _. ⊥)
            x
        → HasReported cluster services w.db (
            continue
              (λ checks. pure (record {
                cluster_name = cluster.name;
                broker_count = length (brokers_of cluster services);
                all_healthy = all (λ c. c.healthy) checks;
                checks = checks;
              }))
              x.0
              x.1)
    reported (ok cs, w') h = (_, refl, h.0, refl, refl, h.1)
    reported (raised e, w') h = absurd h
