-- ===== src/Manager/Synced.antt =====
-- services/cluster_manager.py: what `sync_cluster_state_from_services` makes of the cluster's state.
use tantor_v.Prelude.{
  String, ◌≡◌, ◌≢◌, refl, Bool, true, false, ◌||◌, not, List, [], ◌∷◌, ◌==◌, all, any, Option, none,
  some, arith, Bool-cases, inl, inr, eq_iff, if◌then◌else◌,
}
use tantor_v.Models.{Cluster, Service, has_managed_kind}
use tantor_v.Manager.Units.{is_in}
use tantor_v.Manager.Status.{core_statuses, next_state, sync_state, state_for}

abbrev pub settled_state : String → Option String → String
settled_state current none = current
settled_state current (some state) = state

-- The cluster's state afterwards.
abbrev pub state_after : Cluster → List Service → String
state_after cluster services = settled_state cluster.state (sync_state (some cluster) services)

written :
    (cluster : Cluster) (s : String) (rest : List String)
    → settled_state cluster.state (state_for cluster (s ∷ rest))
      ≡ settled_state cluster.state (next_state cluster.state (s ∷ rest))
written cluster s rest = kept (next_state cluster.state (s ∷ rest))
  where
    kept :
        (o : Option String)
        → settled_state cluster.state (elim o [
          | none ↦ none
          | some state ↦ if cluster.state == state then none else some state
        ])
          ≡ settled_state cluster.state o
    kept none = refl
    kept (some state) = elim (Bool-cases (cluster.state == state)) [
      | inl e ↦ rw e ((eq_iff cluster.state state).0 e)
      | inr n ↦ rw n refl
    ]

abbrev is_running : String → Bool
is_running s = s == "running"

any-not : (xs : List String) → any (λ s. not (is_running s)) xs ≡ not (all is_running xs)
any-not [] = refl
any-not (x ∷ xs) = ground (arith, any-not xs)

error-not_running : (xs : List String) → is_in "error" xs ≡ true → all is_running xs ≡ false
error-not_running [] h = ground arith
error-not_running (x ∷ xs) h = elim (Bool-cases (x == "error")) [
  | inl e ↦ let s : x ≡ "error" = (eq_iff x "error").0 e in rw s refl
  | inr n ↦
      let rest : is_in "error" xs ≡ true = ground arith in
      let ih = error-not_running xs rest in ground arith
]

next_state-running :
    (current : String) (xs : List String)
    → (settled_state current (next_state current xs) == "running") ≡ all is_running xs
unfolding next_state
next_state-running current xs = elim (Bool-cases (is_in "error" xs)) [
  | inl e ↦ rw e (rw (error-not_running xs e) refl)
  | inr n ↦ elim (Bool-cases (all is_running xs)) [
    | inl r ↦ rw (n, r) refl
    | inr nr ↦ elim (Bool-cases (all (λ s. s == "stopped") xs)) [
      | inl p ↦ rw (n, nr, p) refl
      | inr np ↦ elim (Bool-cases (current == "running")) [
        | inl c ↦ rw (n, nr, np, c, any-not xs, nr) refl
        | inr nc ↦ rw (n, nr, np, nc) nc
      ]
    ]
  ]
]

-- After `sync_cluster_state_from_services`, a managed cluster that is not deploying and has core
-- services is "running" exactly if all of them are.
pub sync_state-running :
    (cluster : Cluster) (services : List Service)
    → has_managed_kind cluster ≡ true
    → (cluster.state == "deploying") ≡ false
    → core_statuses services ≢ []
    → (state_after cluster services == "running") ≡ all is_running (core_statuses services)
unfolding sync_state
sync_state-running cluster services managed settled some_core =
    guarded (has_managed_kind cluster) (cluster.state == "deploying") managed settled
      (of_statuses (core_statuses services) some_core)
  where
    guarded :
        (m d : Bool)
        → m ≡ true
        → d ≡ false
        → (settled_state cluster.state (state_for cluster (core_statuses services)) == "running")
          ≡ all is_running (core_statuses services)
        → (settled_state cluster.state
              (if not m || d then none else state_for cluster (core_statuses services))
            == "running")
          ≡ all is_running (core_statuses services)
    guarded m d hm hd h = rw (hm, hd) h

    of_statuses :
        (xs : List String)
        → xs ≢ []
        → (settled_state cluster.state (state_for cluster xs) == "running") ≡ all is_running xs
    of_statuses [] h = elim (h refl) [ ]
    of_statuses (s ∷ rest) h =
        rw (written cluster s rest) (next_state-running cluster.state (s ∷ rest))
