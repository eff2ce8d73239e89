-- ===== src/Upgrade/Ready.antt =====
-- What `pre_upgrade_check` of services/upgrade_manager.py means by "ready".
use tantor_v.Prelude.{
  String, All, ◌≡◌, refl, Bool, true, ◌&&◌, Option, none, some, List, [], ◌∷◌, arith, length, ltb,
}
use mathlib.Core.List.{append-nil}
use tantor_v.Prelude.Exec.{
  Result, ok, Post, Triple, Triple-pure, Triple-raise, Triple-bind, Triple-then, Triple-try,
  Triple-after, Triple-option, Triple-gets, Triple-any, Triple-fact,
}
use tantor_v.Models.{Cluster, Service, Host}
use tantor_v.Remote.{Event, Machines, Reply}
use tantor_v.Upgrade.Defs.{Command, W, brokers_of}
use tantor_v.Upgrade.Repo.{list_repo_versions}
use tantor_v.Upgrade.Checks.{Site, Check, Report, check_version, check_binary}
use tantor_v.Upgrade.PreCheck.{
  judge_isr, running_broker_host, check_isr, check_controller, check_cluster, pre_upgrade_check,
}
use tantor_v.Upgrade.Looks.{
  IsPlain, check_version-IsPlain, check_binary-IsPlain, details_of, are_healthy, are_passed, AreOf,
  IsSeen, IsLasting, All-IsSeen, third, T, Triple-known, exec_command-Kept, connect-Kept,
  check_broker_health-Triple,
}

module _ (net : Machines Command) where
  judge_isr-IsPlain : (r : Reply) → IsPlain (judge_isr net r)
  judge_isr-IsPlain r = (ground arith, ground arith)

  module _ (K : List (Event Command) → Type 0) (lasting : IsLasting K) where
    check_isr-Triple :
        (host : Option Host)
        → Triple (λ w. K w.trace) (check_isr net host) (λ x w. IsPlain x × K w.trace) T
    unfolding check_isr
    check_isr-Triple none = Triple-pure _ (λ w k. ((refl, refl), k))
    check_isr-Triple (some host) =
        Triple-try _ _
          (Triple-then (connect-Kept net K lasting host) (
            Triple-bind _ _ (exec_command-Kept net K lasting host _)
              (λ r. Triple-pure _ (λ w k. (judge_isr-IsPlain r, k)))))
          λ e. Triple-pure _ (λ w k. ((refl, refl), k))

    check_controller-Triple :
        (cluster : Cluster) (host : Option Host)
        → Triple
            (λ w. K w.trace)
            (check_controller net cluster host)
            (λ x w. IsPlain x × K w.trace)
            T
    unfolding check_controller
    check_controller-Triple cluster none = Triple-pure _ (λ w k. ((refl, refl), k))
    check_controller-Triple cluster (some host) =
        Triple-try _ _
          (Triple-then (connect-Kept net K lasting host) (
            Triple-bind _ _ (exec_command-Kept net K lasting host _)
              (λ r. Triple-pure _ (λ w k. ((refl, refl), k)))))
          λ e. Triple-pure _ (λ w k. ((refl, refl), k))

-- The flag is what the entries say, and they look at every broker.
abbrev Judged : List Host → List Service → Report → List (Event Command) → Type 0
Judged hosts services report t =
    (report.ready ≡ are_passed report.checks)
    × (report.ready
        ≡ (report.ready && (ltb 0 (length services) && are_healthy (details_of report.checks))))
    × AreOf hosts (details_of report.checks) services
    × (report.ready ≡ true → All (λ s. IsSeen hosts t s) services)

module _ {V : Type 0} (site : Site V) (hosts : List Host) where
  check_cluster-Triple :
      (cluster : Cluster) (target : String) (services : List Service)
      → Triple T
          (check_cluster site hosts cluster target services)
          (λ report w. Judged hosts services report w.trace)
          T
  unfolding check_cluster
  check_cluster-Triple cluster target services = Triple-bind _ _ (Triple-any _) λ files.
      Triple-bind _ _ (check_broker_health-Triple site.net hosts services) λ c3. Triple-fact λ h3.
        Triple-bind _ _
          (check_isr-Triple site.net _ (All-IsSeen hosts services c3.1)
            (running_broker_host hosts services))
          λ c4. Triple-fact λ h4.
            Triple-bind _ _
              (check_controller-Triple site.net _ (All-IsSeen hosts services c3.1) cluster
                (running_broker_host hosts services))
              λ c5. Triple-pure _ λ w h5.
                let ver = check_version site.versions cluster.kafka_version target in
                let found = list_repo_versions files [] in
                let bin = check_binary site.kafka_repo_dir target found in
                let h1 = check_version-IsPlain site.versions cluster.kafka_version target in
                let h2 = check_binary-IsPlain site.kafka_repo_dir target found in
                judged ver bin c3 c4 c5 h1 h2 h3 h4 h5.0 w.trace h5.1
    where
      judged :
          (c1 c2 c3 c4 c5 : Check × Bool)
          → IsPlain c1
          → IsPlain c2
          → (c3.0.passed ≡ c3.1)
            × (c3.1 ≡ (ltb 0 (length services) && are_healthy c3.0.details))
            × AreOf hosts c3.0.details services
          → IsPlain c4
          → IsPlain c5
          → (t : List (Event Command)) → (c3.1 ≡ true → All (λ s. IsSeen hosts t s) services)
          → Judged hosts services
              (record {
                cluster_id = cluster.id;
                cluster_name = cluster.name;
                current_version = cluster.kafka_version;
                target_version = target;
                ready = c1.1 && c2.1 && c3.1 && c4.1 && c5.1;
                checks = c1.0 ∷ c2.0 ∷ c3.0 ∷ c4.0 ∷ c5.0 ∷ [];
              })
              t
      judged c1 c2 c3 c4 c5 h1 h2 h3 h4 h5 t seen =
          let only : details_of (c1.0 ∷ c2.0 ∷ c3.0 ∷ c4.0 ∷ c5.0 ∷ []) ≡ c3.0.details =
            simp (h1.1, h2.1, h4.1, h5.1, append-nil) in
          (
            ground (arith, h1.0, h2.0, h3.0, h4.0, h5.0),
            rw only (ground (arith, h3.1)),
            rw only h3.2,
            λ ready. seen (third c1.1 c2.1 c3.1 c4.1 c5.1 ready),
          )

  pre_upgrade_check-Triple :
      (cluster_id target : String) (services : List Service)
      → Triple
          (λ w. services ≡ brokers_of cluster_id w.db.services)
          (pre_upgrade_check site hosts cluster_id target)
          (λ report w. Judged hosts services report w.trace)
          T
  unfolding pre_upgrade_check
  pre_upgrade_check-Triple cluster_id target services =
      Triple-bind _ _
        (Triple-gets {R = λ c w. services ≡ brokers_of cluster_id w.db.services} _ (λ w h. h))
        λ cluster.
          Triple-bind _ _ (Triple-gets {R = λ found w. services ≡ found} _ (λ w h. h)) λ found.
            Triple-known λ e.
              Triple-option cluster _ _ (λ _. Triple-raise _ (λ w h. tt))
                (λ c _.
                  Triple-after _ (λ report w h. rw e h) (λ w h. h)
                    (check_cluster-Triple c target found))

-- What holds of a report that was returned.
Post-ok :
    {A : Type 0} (R : A → W → Type 0) (x : Result A × W) (a : A) (w : W)
    → x ≡ (ok a, w)
    → Post R T x
    → R a w
Post-ok R x a w e h = rw e at h

-- When the report of pre_upgrade_check is ready, every check is passed, the cluster has a broker,
-- and "details" has one entry for each of its brokers, in their order, with its node id and the
-- address of its host, and all of them healthy. Each broker has a host, and among the answers of the
-- machines, those of this call and those before it, is one of that host that its broker is active.
pub pre_upgrade_check-ready :
    {V : Type 0} (site : Site V) (hosts : List Host) (cluster_id target : String) (w w' : W)
    (report : Report)
    → pre_upgrade_check site hosts cluster_id target w ≡ (ok report, w')
    → report.ready ≡ true
    → (are_passed report.checks ≡ true)
      × (ltb 0 (length (brokers_of cluster_id w.db.services)) ≡ true)
      × (are_healthy (details_of report.checks) ≡ true)
      × AreOf hosts (details_of report.checks) (brokers_of cluster_id w.db.services)
      × All (λ s. IsSeen hosts w'.trace s) (brokers_of cluster_id w.db.services)
pre_upgrade_check-ready site hosts cluster_id target w w' report returns ready =
    let services = brokers_of cluster_id w.db.services in
    let judged : Judged hosts services report w'.trace =
      Post-ok (λ r v. Judged hosts services r v.trace) _ report w' returns
        ((pre_upgrade_check-Triple site hosts cluster_id target services).at w refl) in
    (
      ground (arith, judged.0),
      ground (arith, judged.1),
      ground (arith, judged.1),
      judged.2,
      judged.3 ready,
    )
