-- ===== src/Restart/Promise.antt =====
-- What `rolling_restart` promises: one unit at a time, and a task that ends.
use tantor_v.Prelude.{
  String, ◌≡◌, refl, inl, inr, ◌⊎◌, Bool, true, false, ◌&&◌, List, [], ◌∷◌, ◌==◌, eq_iff, eq_refl,
  Option, none, some, All, All-filter, arith,
}
use tantor_v.Prelude.Sort.{sort_by, All-sort_by}
use tantor_v.Prelude.Dict.{lookup, lookup-insert}
use tantor_v.Prelude.Exec.{Result, ok, raised, Post, Triple, Triple-bind, Triple-try}
use tantor_v.Models.{Cluster, Service, Host, Role, find_cluster}
use tantor_v.ClusterPaths.{Settings}
use tantor_v.Remote.{Machines, Triple-on_db}
use tantor_v.Restart.Defs.{Command, Task, W, is_broker}
use tantor_v.Restart.Managed.{in_scope, restart_order}
use tantor_v.Restart.Run.{
  restart_selected, restart_cluster, run_restart, Panel, loaded, saved, rolling_restart,
}
use tantor_v.Restart.Phase.{phase, IsIntact, IsSettled, IsSettled-IsIntact, Intact, Settled}
use tantor_v.Restart.OneByOne.{Ended, MayCheck, restart_sorted-Triple}

-- The task of this id has ended, and the commands sent are as its status says.
abbrev pub EndsWell : Bool → String → Panel → Type 0
EndsWell strict task_id p =
    (task : Task) × (lookup task_id p.tasks ≡ some task)
    × (((task.status ≡ "completed") × IsSettled strict (phase strict p.trace))
        ⊎ ((task.status ≡ "error") × IsIntact (phase strict p.trace)))

module _ (net : Machines Command) (settings : Settings) (strict : Bool) (scope : String)
    (agree : strict ≡ true → scope ≡ "brokers") (hosts : List Host) where
  brokers_only :
      (b : Bool)
      → strict ≡ b
      → (role : Role) → in_scope scope role ≡ true
      → is_broker role ≡ false
      → b ≡ false
  unfolding in_scope
  brokers_only false e role i n = refl
  brokers_only true e role i n =
      let s : (scope == "brokers") ≡ true = (eq_iff scope "brokers").1 (agree e) in
      let i' : is_broker role ≡ true = rw s at i in cc

  restart_selected-Triple :
      (cluster : Cluster) (services : List Service)
      → All (MayCheck strict) services
      → Triple
          (Settled strict)
          (restart_selected net settings cluster scope hosts services)
          (λ _. Ended strict)
          (Intact strict)
  unfolding restart_selected
  restart_selected-Triple cluster [] fits =
      Triple-bind _ _ (Triple-on_db {R = λ _. Settled strict} _ (λ w h. h))
        λ _. Triple-on_db _ (λ w h. inl (refl, h))
  restart_selected-Triple cluster (svc ∷ rest) fits =
      restart_sorted-Triple net settings strict cluster hosts scope
        (sort_by (λ s. restart_order s.role) (svc ∷ rest))
        (All-sort_by (λ s. restart_order s.role) (MayCheck strict) (svc ∷ rest) fits)

  restart_cluster-Triple :
      (cluster : Option Cluster) (services : List Service)
      → Triple
          (Settled strict)
          (restart_cluster net settings cluster scope hosts services)
          (λ _. Ended strict)
          (Intact strict)
  unfolding restart_cluster
  restart_cluster-Triple none services =
      Triple-bind _ _
        (Triple-on_db {R = λ _. Intact strict} _ (λ w h. IsSettled-IsIntact strict _ h))
        λ _. Triple-on_db _ (λ w h. inr (refl, h))
  restart_cluster-Triple (some cluster) services = restart_selected-Triple cluster _ (
      All-filter (λ s. s.cluster_id == cluster.id && in_scope scope s.role) services
        (λ s h. brokers_only strict refl s.role (ground arith)))

  run_restart-Triple :
      (cluster : Option Cluster) (services : List Service)
      → Triple
          (Settled strict)
          (run_restart net settings cluster scope hosts services)
          (λ _. Ended strict)
          (λ w. ⊥)
  unfolding run_restart
  run_restart-Triple cluster services =
      Triple-try _ _ (restart_cluster-Triple cluster services) λ e.
        Triple-bind _ _ (Triple-on_db {R = λ _. Intact strict} _ (λ w h. h))
          λ _. Triple-on_db _ (λ w h. inr (refl, h))

pub Post-Ended :
    (strict : Bool) (x : Result (Unit {0}) × W)
    → Post (λ _. Ended strict) (λ _. ⊥) x
    → Ended strict x.1
Post-Ended strict (ok a, w) h = h
Post-Ended strict (raised e, w) h = absurd h

pub saved-EndsWell :
    (strict : Bool) (task_id : String) (p : Panel) (w : W)
    → Ended strict w
    → EndsWell strict task_id (saved p task_id w)
saved-EndsWell strict task_id p w h = (w.db.task, rw lookup-insert (simp eq_refl), h)

-- Let a restart find its task, and let every unit be back before it. However the machines answer,
-- the method leaves the task completed or in error. When it is completed, every unit that was
-- stopped has been seen active after its start. When it is in error, at least no unit was stopped
-- before the one stopped earlier had been seen so. A strict onlooker, who asks of a unit that its
-- port was reached too, sees the same of a restart with the scope "brokers".
pub rolling_restart-EndsWell :
    (net : Machines Command) (settings : Settings) (strict : Bool)
    (cluster_id task_id scope : String) (p : Panel) (task : Task)
    → (strict ≡ true → scope ≡ "brokers")
    → lookup task_id p.tasks ≡ some task
    → IsSettled strict (phase strict p.trace)
    → EndsWell strict task_id (rolling_restart net settings cluster_id task_id scope p)
unfolding rolling_restart
rolling_restart-EndsWell net settings strict cluster_id task_id scope p task agree found settled =
    let cluster = find_cluster cluster_id p.clusters in
    let final = (run_restart net settings cluster scope p.hosts p.services (loaded p task)).1 in
    let t = run_restart-Triple net settings strict scope agree p.hosts cluster p.services in
    rw (found, rolling_restart)
      (saved-EndsWell strict task_id p final (Post-Ended strict _ (t.at (loaded p task) settled)))
