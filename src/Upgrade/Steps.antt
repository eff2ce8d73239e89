-- ===== src/Upgrade/Steps.antt =====
-- services/upgrade_manager.py: the upgrade of one broker, seen by the onlooker of Upgrade/Stages.
use tantor_v.Prelude.{String, ◌≡◌, refl, Bool, Option, none, some, List, ◌∷◌, if◌then◌else◌}
use tantor_v.Prelude.Exec.{
  Failure, Result, ok, raised, Exec, ◌>>=◌, ◌>>◌, Post, Triple, Triple-pure, Triple-raise,
  Triple-bind, Triple-then, Triple-if,
}
use tantor_v.Models.{Service, Host, Cluster, find_cluster}
use tantor_v.Remote.{
  ran, Machines, Reply, succeeded, exec_command, on_db, Triple-exec_command, Triple-on_db,
}
use tantor_v.Upgrade.Defs.{Command, Task, UpgradeDb, W, update_task}
use tantor_v.Upgrade.Broker.{need}
use tantor_v.Upgrade.Stages.{Progress, observe, progress, IsIntact}

-- The version that the row carries, if there is one.
abbrev pub version_in : Option Cluster → Option String
version_in none = none
version_in (some c) = some c.kafka_version

abbrev pub version_of : String → List Cluster → Option String
version_of cluster_id clusters = version_in (find_cluster cluster_id clusters)

module _ (cluster_id : String) (version : Option String) where
  -- The version has not been touched.
  abbrev pub HasVersion : W → Type 0
  HasVersion w = version_of cluster_id w.db.clusters ≡ version

  abbrev pub In : Progress → W → Type 0
  In p w = (progress w.trace ≡ p) × HasVersion w

  abbrev pub Failing : W → Type 0
  Failing w = IsIntact (progress w.trace) × HasVersion w

  pub In-Failing : (p : Progress) (w : W) → IsIntact p → In p w → Failing w
  In-Failing p w i h = (rw h.0 i, h.1)

  -- A change of the task, or of the rows of services.
  pub Triple-aside :
      (p : Progress) (f : UpgradeDb → UpgradeDb)
      → ((d : UpgradeDb) → (f d).clusters ≡ d.clusters)
      → Triple (In p) (on_db f) (λ _. In p) Failing
  Triple-aside p f same = Triple-on_db f (λ w h. (h.0, rw same h.1))

  pub Triple-log :
      (p : Progress) (f : Task → Task) → Triple (In p) (update_task f) (λ _. In p) Failing
  Triple-log p f = Triple-aside p _ (λ d. refl)

  need-Triple :
      (svc : Service) (what on : String) (bad good : Progress) (r : Reply)
      → IsIntact bad
      → Triple (In (if succeeded r then good else bad)) (need svc what on r) (λ _. In good) Failing
  need-Triple svc what on bad good r intact =
      Triple-if (succeeded r) _ _ (λ e. Triple-pure _ (λ w h. rw e at h))
        (λ e. Triple-raise _ (λ w h. In-Failing bad w intact (rw e at h)))

  module _ (net : Machines Command) (host : Host) where
    -- A command whose reply decides how far the upgrade has come.
    pub Triple-step :
        (c : Command) (bad good : Progress) (test : Reply → Bool)
        → ((r : Reply) → observe bad (ran host c (ok r)) ≡ (if test r then good else bad))
        → ((e : Failure) → observe bad (ran host c (raised e)) ≡ bad)
        → IsIntact bad
        → Triple (In bad) (exec_command net host c) (λ r. In (if test r then good else bad)) Failing
    Triple-step c bad good test on_ok on_raised intact = Triple-exec_command net host c answer
      where
        answer :
            (w : W) (r : Result Reply)
            → In bad w
            → Post
                (λ r'. In (if test r' then good else bad))
                Failing
                (r, record w { trace = ran host c r ∷ w.trace })
        answer w (ok r) h = (rw h.0 (on_ok r), h.1)
        answer w (raised e) h = (rw (h.0, on_raised e) intact, h.1)

    -- A command that the onlooker does not care for.
    pub Triple-other :
        (c : Command) (p : Progress)
        → ((r : Result Reply) → observe p (ran host c r) ≡ p)
        → IsIntact p
        → Triple (In p) (exec_command net host c) (λ _. In p) Failing
    Triple-other c p same intact = Triple-exec_command net host c answer
      where
        answer :
            (w : W) (r : Result Reply)
            → In p w
            → Post (λ _. In p) Failing (r, record w { trace = ran host c r ∷ w.trace })
        answer w (ok r) h = (rw (h.0, same (ok r)) refl, h.1)
        answer w (raised e) h = (rw (h.0, same (raised e)) intact, h.1)

    -- A command that must succeed for the code to go on.
    pub Triple-must :
        {A : Type 0} {R : A → W → Type 0} (svc : Service) (what on : String) (c : Command)
        (bad good : Progress) (n : Exec W A)
        → ((r : Reply) → observe bad (ran host c (ok r)) ≡ (if succeeded r then good else bad))
        → ((e : Failure) → observe bad (ran host c (raised e)) ≡ bad)
        → IsIntact bad
        → Triple (In good) n R Failing
        → Triple (In bad) (exec_command net host c >>= λ r. need svc what on r >> n) R Failing
    Triple-must svc what on c bad good n on_ok on_raised intact t =
        Triple-bind _ _ (Triple-step c bad good succeeded on_ok on_raised intact)
          λ r. Triple-then (need-Triple svc what on bad good r intact) t
