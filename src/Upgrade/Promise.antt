-- ===== src/Upgrade/Promise.antt =====
-- What `rolling_upgrade` promises: one broker at a time through every stage, and a task that ends.
use tantor_v.Prelude.{
  String, ◌≡◌, refl, sym, inl, inr, ◌⊎◌, Option, some, List, [], map, onto, length,
}
use tantor_v.Prelude.Sort.{sort_by}
use tantor_v.Prelude.Dict.{lookup}
use tantor_v.Prelude.Exec.{
  Result, ok, raised, Post, Triple, Triple-raise, Triple-bind, Triple-then, Triple-if, Triple-try,
  Triple-after, Triple-option, Triple-gets, Triple-fact,
}
use tantor_v.Models.{Cluster, Service, Host, find_cluster}
use tantor_v.Remote.{Machines, Triple-on_db}
use tantor_v.Upgrade.Defs.{Command, Task, W, update_task, brokers_of}
use tantor_v.Upgrade.Repo.{Tarball, list_repo_versions}
use tantor_v.Upgrade.Checks.{Site}
use tantor_v.Upgrade.Run.{
  upgrade_sorted, upgrade_checked, upgrade_judged, do_rolling_upgrade, fail_upgrade,
  rolling_upgrade,
}
use tantor_v.Upgrade.Stages.{idle, progress}
use tantor_v.Upgrade.Steps.{version_of, In, Failing, Triple-log}
use tantor_v.Upgrade.Harmless.{Still, log-Still, pre_upgrade_check-Still}
use tantor_v.Upgrade.Rows.{version_of-update_cluster}
use tantor_v.Upgrade.Outcome.{
  Completed, Failed, done_after, on_task-HasStatus, upgrade_brokers-Triple, conclude-Triple,
}

module _ (cluster_id : String) (version target : String) where
  abbrev V : Option String
  V = some version

  upgrade_sorted-Triple :
      (net : Machines Command) (hosts : List Host) (tarball : Tarball) (services : List Service)
      (done : List String)
      → Triple
          (In cluster_id V (done, idle))
          (upgrade_sorted net hosts cluster_id target tarball services)
          (λ _. Completed cluster_id target (onto (map (λ s. s.host_id) services) done))
          (Failing cluster_id V)
  unfolding upgrade_sorted
  upgrade_sorted-Triple net hosts tarball services done =
      Triple-then (Triple-log cluster_id V _ _) (
        Triple-then (Triple-log cluster_id V _ _) (
          Triple-then
            (Triple-on_db _ (λ w h.
              (h.0, rw (version_of-update_cluster cluster_id "upgrading" w.db.clusters) h.1)))
            (Triple-then
              (upgrade_brokers-Triple cluster_id version target net hosts tarball (length services)
                0 services done)
              (Triple-after _ (λ _ w h. h) (λ w h. absurd h)
                (conclude-Triple cluster_id version target net hosts services _)))))

  module _ {X : Type 0} (site : Site X) (hosts : List Host) (services : List Service)
      (done : List String) where
    abbrev Q : List Cluster → List Service → Type 0
    Q C S = (version_of cluster_id C ≡ V) × (S ≡ services)

    upgrade_checked-Triple :
        Triple
          (Still done Q)
          (upgrade_checked site hosts cluster_id target)
          (λ _. Completed cluster_id target (done_after cluster_id services done))
          (Failing cluster_id V)
    unfolding upgrade_checked
    upgrade_checked-Triple =
        Triple-then (Triple-after _ (λ _ w h. h) (λ w h. absurd h) (log-Still done Q _)) (
          Triple-bind _ _ (Triple-gets {R = λ _. Still done Q} _ (λ w h. h)) λ files.
            Triple-bind _ _
              (Triple-gets
                {R = λ S w.
                  (S ≡ sort_by (λ s. s.node_id) (brokers_of cluster_id services))
                  × In cluster_id V (done, idle) w}
                _ (λ w h. (rw h.1.1 refl, (h.0, h.1.0))))
              λ S. Triple-fact λ e.
                Triple-option (lookup target (list_repo_versions files [])) _ _
                  (λ _. Triple-raise _ (λ w h. (rw h.0 tt, h.1)))
                  (λ tarball _. Triple-then (Triple-log cluster_id V _ _) (
                    Triple-after _ (λ _ w h. rw (sym e) h) (λ w h. h)
                      (upgrade_sorted-Triple site.net hosts tarball S done))))

    do_rolling_upgrade-Triple :
        Triple
          (Still done Q)
          (do_rolling_upgrade site hosts cluster_id target)
          (λ _. Completed cluster_id target (done_after cluster_id services done))
          (Failing cluster_id V)
    unfolding do_rolling_upgrade upgrade_judged
    do_rolling_upgrade-Triple = Triple-then (start_log _) (
        Triple-then (start_log _) (
          Triple-then (start_log _) (
            Triple-bind _ _ (Triple-gets {R = λ _. Still done Q} _ (λ w h. h)) λ cluster.
              Triple-option cluster _ _ (λ _. Triple-raise _ Still-Failing)
                (λ c _.
                  Triple-bind _ _
                    (Triple-after _ (λ _ w h. h) Still-Failing
                      (pre_upgrade_check-Still done Q site hosts cluster_id target))
                    λ report.
                      Triple-if report.ready _ _ (λ _. upgrade_checked-Triple)
                        (λ _. Triple-raise _ Still-Failing)))))
      where
        Still-Failing : (w : W) → Still done Q w → Failing cluster_id V w
        Still-Failing w h = (rw h.0 tt, h.1.0)

        start_log :
            (f : Task → Task)
            → Triple (Still done Q) (update_task f) (λ _. Still done Q) (Failing cluster_id V)
        start_log f = Triple-after _ (λ _ w h. h) (λ w h. absurd h) (log-Still done Q f)

    rolling_upgrade-Triple :
        Triple
          (Still done Q)
          (rolling_upgrade site hosts cluster_id target)
          (λ _ w.
            Completed cluster_id target (done_after cluster_id services done) w
            ⊎ Failed cluster_id version w)
          (λ w. ⊥)
    unfolding rolling_upgrade fail_upgrade
    rolling_upgrade-Triple =
        Triple-try _ _ (Triple-after _ (λ _ w h. inl h) (λ w h. h) do_rolling_upgrade-Triple) λ e.
          Triple-then {Q = Failing cluster_id V} (Triple-on_db _ (λ w h. h))
            (Triple-on_db _ (λ w h. inr (on_task-HasStatus w.db.task _ "failed" (λ t. refl), h)))

Post-returns : (R : W → Type 0) (x : Result (Unit {0}) × W) → Post (λ _. R) (λ w. ⊥) x → R x.1
Post-returns R (ok a, w) h = h
Post-returns R (raised e, w) h = absurd h

-- An upgrade of a cluster that has a row, begun while no broker is half-way through one, ends in
-- one of two ways, however the machines answer. Completed: every broker of the cluster, in the
-- order of the node ids and one at a time, was stopped, had its configuration saved, its
-- installation replaced and its configuration put back, was started, and was seen active and
-- listening before the next one was touched; and the row says that the cluster runs the target
-- version. Failed: no broker's step came too early, and the row keeps its version. The task, if it
-- is still in the table, has the status of that end.
pub rolling_upgrade-EndsAs :
    {X : Type 0} (site : Site X) (hosts : List Host) (cluster_id target : String) (w : W)
    (c : Cluster) (done : List String)
    → find_cluster cluster_id w.db.clusters ≡ some c
    → progress w.trace ≡ (done, idle)
    → Completed cluster_id target
        (done_after cluster_id w.db.services done)
        (rolling_upgrade site hosts cluster_id target w).1
      ⊎ Failed cluster_id c.kafka_version (rolling_upgrade site hosts cluster_id target w).1
rolling_upgrade-EndsAs site hosts cluster_id target w c done found calm =
    let R : W → Type 0 = λ w'.
      Completed cluster_id target (done_after cluster_id w.db.services done) w'
      ⊎ Failed cluster_id c.kafka_version w' in
    Post-returns R (rolling_upgrade site hosts cluster_id target w) (
      (rolling_upgrade-Triple cluster_id c.kafka_version target site hosts w.db.services done).at w
        (calm, (rw found refl, refl)))
