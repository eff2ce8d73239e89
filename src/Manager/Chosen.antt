-- ===== src/Manager/Chosen.antt =====
-- services/cluster_manager.py and services/rolling_restart_manager.py: the unit that `_start_service`
-- chooses over SSH, the units that a stop finds, and the unit of the rolling restart.
use tantor_v.Prelude.{
  String, ◌≡◌, ◌≢◌, refl, Bool, true, false, Option, none, some, List, [], ◌∷◌, ◌++◌, ◌==◌, ◌&&◌,
  All, Bool-cases, ◌⊎◌, inl, inr, if◌then◌else◌,
}
use tantor_v.Prelude.Text.{concat}
use tantor_v.Prelude.Exec.{
  ok, raised, Result, Exec, pure, Post, Triple, Triple-pure, Triple-bind, Triple-fact, Triple-any,
  Triple-either, Triple-after, ◌>>=◌,
}
use tantor_v.Models.{
  Cluster, Service, Host, Role, broker, broker_controller, controller, zookeeper, ksqldb,
  kafka_connect, schema_registry, other, has_managed_kind, or_text,
}
use tantor_v.ClusterPaths.{unit_name, default_unit_name}
use tantor_v.Remote.{Event, ran, Machines, Reply, succeeded, exec_command, Triple-exec_command}
use tantor_v.Restart.Managed.{unit_for_service}
use tantor_v.Restart.Managed
use tantor_v.Manager.Units
use tantor_v.Manager.Units.{
  unit_candidates, unique, unique_from, first_of_candidates, legacy_unit, non_kafka_unit,
}
use tantor_v.Manager.Ssh.{
  Command, cat, start, W, unit_exists, select_from, select_existing_unit, cleanup_from,
  cleanup_units,
}
use tantor_v.Manager.Lifecycle.{start_service}
use tantor_v.Manager.Order.{IsKnown}

-- The first of the candidates is this unit.
abbrev IsFirst : String → List String → Type 0
IsFirst unit candidates = (rest : List String) × (candidates ≡ unit ∷ rest)

named_unit : (c : Cluster) → (unit_name c == "") ≡ false
named_unit c = nonempty c.kafka_unit_name
  where
    nonempty : (o : Option String) → (or_text o default_unit_name == "") ≡ false
    nonempty none = refl
    nonempty (some s) = elim (Bool-cases (s == "")) [ inl e ↦ rw e refl | inr n ↦ rw n n ]

unique-IsFirst : (u v : String) → (u == "") ≡ false → IsFirst u (unique (u ∷ v ∷ []))
unfolding unique unique_from
unique-IsFirst u v h = rw h (_, refl)

unit_candidates-IsFirst :
    (c : Cluster) (svc : Service)
    → has_managed_kind c ≡ true
    → IsKnown svc.role
    → svc.role ≢ controller
    → svc.role ≢ schema_registry
    → IsFirst (unit_for_service c svc) (unit_candidates (some c) svc.role)
unfolding unit_candidates unit_for_service Units.is_kafka_role legacy_unit non_kafka_unit
    Managed.is_kafka_role Managed.service_type concat
unit_candidates-IsFirst c svc managed known = by_role svc.role (has_managed_kind c) managed known
  where
    by_role :
        (role : Role) (b : Bool)
        → b ≡ true
        → IsKnown role
        → role ≢ controller
        → role ≢ schema_registry
        → IsFirst
            (if b && Managed.is_kafka_role role
              then unit_name c
              else concat (Managed.service_type role ∷ ".service" ∷ []))
            (if Units.is_kafka_role role
              then unique ((if b then unit_name c ∷ [] else []) ++ legacy_unit role ∷ [])
              else non_kafka_unit role ∷ [])
    by_role broker b m k nc ns = rw m (unique-IsFirst (unit_name c) "kafka.service" (named_unit c))
    by_role broker_controller b m k nc ns =
        rw m (unique-IsFirst (unit_name c) "kafka.service" (named_unit c))
    by_role zookeeper b m k nc ns =
        rw m (unique-IsFirst (unit_name c) "kafka.service" (named_unit c))
    by_role controller b m k nc ns = elim (nc refl) [ ]
    by_role ksqldb b m k nc ns = rw m (_, refl)
    by_role kafka_connect b m k nc ns = rw m (_, refl)
    by_role schema_registry b m k nc ns = elim (ns refl) [ ]
    by_role (other text) b m k nc ns = elim (k text refl) [ ]

-- The units that `systemctl start` was given, the latest first.
abbrev pub started : List (Event Command) → List String
started [] = []
started (ran host (start unit) r ∷ t) = unit ∷ started t
started (_ ∷ t) = started t

module _ (net : Machines Command) (host : Host) where
  select_existing_unit-first :
      (unit : String) (candidates : List String) (w : W) (r : Reply)
      → IsFirst unit candidates
      → net.run w.trace host (cat unit) ≡ ok r
      → succeeded r ≡ true
      → select_existing_unit net host candidates w
        ≡ (ok unit, record w { trace = ran host (cat unit) (ok r) ∷ w.trace })
  unfolding select_existing_unit select_from unit_exists exec_command pure ◌>>=◌
  select_existing_unit-first unit candidates w r (rest, e) found good = rw (e, found, good) refl

  -- One candidate is the only unit that is chosen, and looking for it starts nothing.
  select_existing_unit-single :
      (unit : String) (before : List String)
      → Triple
          (λ w. started w.trace ≡ before)
          (select_existing_unit net host (unit ∷ []))
          (λ u w. (u ≡ unit) × (started w.trace ≡ before))
          (λ w. started w.trace ≡ before)
  unfolding select_existing_unit select_from unit_exists
  select_existing_unit-single unit before =
      Triple-bind _ _
        (Triple-bind _ _
          (Triple-exec_command {R = λ _ w. started w.trace ≡ before} net host (cat unit) looked)
          (λ r. Triple-pure _ (λ w h. h)))
        λ exists. chosen exists
    where
      looked :
          (w : W) (r : Result Reply)
          → started w.trace ≡ before
          → Post
              (λ _ w'. started w'.trace ≡ before)
              (λ w'. started w'.trace ≡ before)
              (r, record w { trace = ran host (cat unit) r ∷ w.trace })
      looked w (ok r) h = h
      looked w (raised e) h = h

      chosen :
          (exists : Bool)
          → Triple
              (λ (w : W). started w.trace ≡ before)
              (elim exists [ true ↦ pure unit | false ↦ pure unit ])
              (λ u w. (u ≡ unit) × (started w.trace ≡ before))
              (λ w. started w.trace ≡ before)
      chosen true = Triple-pure _ (λ w h. (refl, h))
      chosen false = Triple-pure _ (λ w h. (refl, h))

  cleanup_units-single :
      (unit : String)
      → Triple
          (λ w. Unit)
          (cleanup_units net host (unit ∷ []))
          (λ found w. All (λ x. x.0 ≡ unit) found)
          (λ w. Unit)
  unfolding cleanup_units cleanup_from
  cleanup_units-single unit = Triple-bind _ _ (Triple-any _) λ exists.
      Triple-bind _ _ (Triple-any _) λ state.
        Triple-either _ _ _ (Triple-pure _ (λ w h. (refl, tt))) (Triple-pure _ (λ w h. (refl, tt)))

  -- What follows the start of a unit has no further one.
  exec_command-started :
      {A : Type 0} (unit : String) (before : List String) (f : Reply → Exec W A)
      → ((r : Reply)
          → Triple
              (λ w. started w.trace ≡ unit ∷ before)
              (f r)
              (λ _ w. started w.trace ≡ unit ∷ before)
              (λ w. started w.trace ≡ unit ∷ before))
      → Triple
          (λ w. started w.trace ≡ before)
          (exec_command net host (start unit) >>= f)
          (λ _ w. started w.trace ≡ unit ∷ before)
          (λ w. started w.trace ≡ unit ∷ before)
  exec_command-started unit before f t =
      Triple-bind _ _ (Triple-exec_command net host (start unit) told) t
    where
      told :
          (w : W) (r : Result Reply)
          → started w.trace ≡ before
          → Post
              (λ _ w'. started w'.trace ≡ unit ∷ before)
              (λ w'. started w'.trace ≡ unit ∷ before)
              (r, record w { trace = ran host (start unit) r ∷ w.trace })
      told w (ok r) h = rw h refl
      told w (raised e) h = rw h refl

Post-same : {A : Type 0} (Q : W → Type 0) (x : Result A × W) → Post (λ _. Q) Q x → Q x.1
Post-same Q (ok a, w) h = h
Post-same Q (raised e, w) h = h

-- On a managed cluster, let the role be known and neither "controller" nor "schema_registry". Where
-- the machine has the unit that the rolling restart restarts (`systemctl cat` succeeds),
-- _start_service gives `systemctl start` that unit, and no other.
pub start_service-unit_for_service :
    (net : Machines Command) (host : Host) (c : Cluster) (svc : Service) (w : W) (r : Reply)
    → has_managed_kind c ≡ true
    → IsKnown svc.role
    → svc.role ≢ controller
    → svc.role ≢ schema_registry
    → net.run w.trace host (cat (unit_for_service c svc)) ≡ ok r
    → succeeded r ≡ true
    → started (start_service net (some c) svc host w).1.trace
      ≡ unit_for_service c svc ∷ started w.trace
unfolding start_service ◌>>=◌
start_service-unit_for_service net host c svc w r managed known nc ns found good =
    let unit = unit_for_service c svc in
    rw
      (select_existing_unit-first net host unit _ w r
        (unit_candidates-IsFirst c svc managed known nc ns) found good)
      (Post-same (λ v. started v.trace ≡ unit ∷ started w.trace) _
        ((exec_command-started net host unit (started w.trace) _
            λ a. Triple-either _ _ _ (Triple-pure _ (λ v h. h)) (Triple-pure _ (λ v h. h))).at
          (record w { trace = ran host (cat unit) (ok r) ∷ w.trace }) refl))

-- Nothing was started, or this unit was.
abbrev AtMost : String → List String → W → Type 0
AtMost unit before w = (started w.trace ≡ before) ⊎ (started w.trace ≡ unit ∷ before)

start_service-single :
    (net : Machines Command) (host : Host) (cluster : Option Cluster) (svc : Service)
    (unit : String) (before : List String)
    → unit_candidates cluster svc.role ≡ unit ∷ []
    → Triple
        (λ w. started w.trace ≡ before)
        (start_service net cluster svc host)
        (λ _. AtMost unit before)
        (AtMost unit before)
unfolding start_service
start_service-single net host cluster svc unit before single = rw single (
    Triple-bind _ _
      (Triple-after _ (λ u w h. h) (λ w h. inl h)
        (select_existing_unit-single net host unit before))
      λ u. Triple-fact λ e. rw e (
        Triple-after _ (λ a w h. inr h) (λ w h. inr h)
          (exec_command-started net host unit before _
            λ r. Triple-either _ _ _ (Triple-pure _ (λ v h. h)) (Triple-pure _ (λ v h. h)))))

-- A controller of a managed cluster is restarted as the cluster's own unit. Whatever the machine
-- answers, _start_service starts at most "kafka.service" for it, and _cleanup_units gives a stop no
-- other unit.
pub start_service-controller :
    (net : Machines Command) (host : Host) (c : Cluster) (svc : Service) (w : W)
    → has_managed_kind c ≡ true
    → svc.role ≡ controller
    → (unit_for_service c svc ≡ unit_name c)
      × ((started (start_service net (some c) svc host w).1.trace ≡ started w.trace)
          ⊎ (started (start_service net (some c) svc host w).1.trace
              ≡ "kafka.service" ∷ started w.trace))
      × Post
          (λ found _. All (λ x. x.0 ≡ "kafka.service") found)
          (λ _. Unit)
          (cleanup_units net host (unit_candidates (some c) svc.role) w)
unfolding unit_candidates unit_for_service Units.is_kafka_role non_kafka_unit Managed.is_kafka_role
start_service-controller net host c svc w managed role = (
  rw (role, managed) refl,
  Post-same (AtMost "kafka.service" (started w.trace)) _ (
      (start_service-single net host (some c) svc "kafka.service" (started w.trace)
          (rw role refl)).at
        w refl),
  rw role ((cleanup_units-single net host "kafka.service").at w tt),
)
