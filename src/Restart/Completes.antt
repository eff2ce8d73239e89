-- ===== src/Restart/Completes.antt =====
-- services/rolling_restart_manager.py: the run of a rolling restart with obedient machines.
use tantor_v.Prelude.{
  ℕ, ◌+◌, String, ◌≡◌, refl, some, List, [], ◌∷◌, eq_refl, length, filter, ◌==◌, ◌&&◌,
}
use tantor_v.Prelude.Sort.{sort_by, All-sort_by}
use tantor_v.Prelude.Dict.{lookup, lookup-insert}
use tantor_v.Prelude.Exec.{
  Result, ok, raised, Post, Triple, Triple-pure, Triple-bind, Triple-then, Triple-try,
  Triple-option,
}
use tantor_v.Models.{Cluster, Service, Host, find_host, find_cluster}
use tantor_v.ClusterPaths.{Settings}
use tantor_v.Remote.{Machines, Triple-on_db}
use tantor_v.Restart.Defs.{Command, Task, W}
use tantor_v.Restart.Managed.{next, restart_order, in_scope}
use tantor_v.Restart.Run.{
  restart_numbered, restart_services, finish, restart_sorted, restart_selected, restart_cluster,
  run_restart, Panel, loaded, rolling_restart,
}
use tantor_v.Restart.Live.{AreObedient, Sure, db_lem, Sure-bind, restart_service-Sure}

-- The services of the cluster that the scope is about.
abbrev pub chosen : String → Cluster → List Service → List Service
chosen scope cluster services =
    filter (λ s. s.cluster_id == cluster.id && in_scope scope s.role) services

abbrev Done : W → Type 0
Done w = w.db.task.status ≡ "completed"

module _ (net : Machines Command) (settings : Settings) (cluster : Cluster)
    (hosts : List Host) where
  restart_services-Sure :
      (total idx : ℕ) (services : List Service)
      → AreObedient net cluster hosts services
      → Sure (restart_services net settings cluster hosts total idx services) (λ flow. flow ≡ next)
  unfolding restart_services restart_numbered
  restart_services-Sure total idx [] obey = Triple-pure _ (λ w h. refl)
  restart_services-Sure total idx (svc ∷ rest) obey =
      Triple-option (find_host svc.host_id hosts) _ _
        (λ _. Triple-then (db_lem _) (restart_services-Sure total (idx + 1) rest obey.1))
        (λ host known.
          Sure-bind {Q = λ flow. flow ≡ next}
            (Triple-then (db_lem _) (
              Triple-then (db_lem _)
                (restart_service-Sure net cluster svc host (obey.0 host known) settings)))
            λ flow e. rw e (restart_services-Sure total (idx + 1) rest obey.1))

  finish-Done :
      (total : ℕ) → Triple (λ w. Unit) (finish net settings total next) (λ _. Done) (λ w. ⊥)
  unfolding finish
  finish-Done total =
      Triple-then (db_lem _)
        (Triple-then (db_lem _) (Triple-then (db_lem _) (Triple-on_db _ (λ w h. refl))))

  restart_sorted-Done :
      (scope : String) (services : List Service)
      → AreObedient net cluster hosts services
      → Triple
          (λ w. Unit)
          (restart_sorted net settings cluster scope hosts services)
          (λ _. Done)
          (λ w. ⊥)
  unfolding restart_sorted
  restart_sorted-Done scope services obey = Triple-then (db_lem _) (
      Triple-then (db_lem _) (
        Triple-then (db_lem _) (
          Triple-then (db_lem _) (
            Triple-bind _ _ (restart_services-Sure (length services) 0 services obey)
              λ flow. record { at = λ w e. rw e ((finish-Done (length services)).at w tt) }))))

  restart_selected-Done :
      (scope : String) (services : List Service)
      → AreObedient net cluster hosts services
      → Triple
          (λ w. Unit)
          (restart_selected net settings cluster scope hosts services)
          (λ _. Done)
          (λ w. ⊥)
  unfolding restart_selected
  restart_selected-Done scope [] obey = Triple-then (db_lem _) (Triple-on_db _ (λ w h. refl))
  restart_selected-Done scope (svc ∷ rest) obey =
      restart_sorted-Done scope (sort_by (λ s. restart_order s.role) (svc ∷ rest))
        (All-sort_by (λ s. restart_order s.role) _ (svc ∷ rest) obey)

  run_restart-Done :
      (scope : String) (services : List Service)
      → AreObedient net cluster hosts (chosen scope cluster services)
      → Triple
          (λ w. Unit)
          (run_restart net settings (some cluster) scope hosts services)
          (λ _. Done)
          (λ w. ⊥)
  unfolding run_restart restart_cluster
  run_restart-Done scope services obey =
      Triple-try _ _ (restart_selected-Done scope _ obey) (λ e. record { at = λ w h. absurd h })

Post-Done : (x : Result (Unit {0}) × W) → Post (λ _. Done) (λ _. ⊥) x → Done x.1
Post-Done (ok a, w) h = h
Post-Done (raised e, w) h = absurd h

-- Let every service of the cluster that the scope is about have a host, or none, which can be reached,
-- answers every command and starts the unit of the service; let that unit, once a minute has been
-- slept since it was started and if it was not stopped since, be active and a broker's port be open.
-- A rolling restart of a cluster that has a row then completes its task, however many services there
-- are and whatever a stop and the looks behind it answer.
pub rolling_restart-AreObedient :
    (net : Machines Command) (settings : Settings) (cluster_id task_id scope : String) (p : Panel)
    (task : Task) (cluster : Cluster)
    → AreObedient net cluster p.hosts (chosen scope cluster p.services)
    → lookup task_id p.tasks ≡ some task
    → find_cluster cluster_id p.clusters ≡ some cluster
    → (t : Task) × (lookup task_id (rolling_restart net settings cluster_id task_id scope p).tasks
        ≡ some t)
      × (t.status ≡ "completed")
unfolding rolling_restart
rolling_restart-AreObedient net settings cluster_id task_id scope p task cluster obey found known =
    let x = run_restart net settings (some cluster) scope p.hosts p.services (loaded p task) in
    let t = run_restart-Done net settings cluster p.hosts scope p.services obey in
    rw (found, rolling_restart, known)
      (x.1.db.task, rw lookup-insert (simp eq_refl), Post-Done x (t.at (loaded p task) tt))
