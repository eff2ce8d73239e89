-- ===== src/Alerts/Seeded.antt =====
-- services/alert_manager.py: what `seed_default_rules` adds, once and again.
use mathlib.Core.List.{append-nil}
use tantor_v.Prelude.{
  ℕ, zero, suc, ◌+◌, String, ◌≡◌, refl, inl, inr, Bool, true, any, ◌||◌, List, [], ◌∷◌, ◌++◌, ◌==◌,
  eq_refl, arith, All, All-map, Bool-cases, filter, map,
}
use tantor_v.Alerts.Templates.{Template, rule_templates}
use tantor_v.Alerts.Rules.{AlertRule, seeded, has_name, seed_from, seed_default_rules}

-- The label of a rule whose channel is "[]", as it stands in the file.
abbrev pub channel_line : String
channel_line = "          tantor_channel: \"[]\""

abbrev pub has_line : String → List String → Bool
has_line l lines = any (λ m. m == l) lines

skip : ℕ → List String → List String
skip zero lines = lines
skip (suc n) [] = []
skip (suc n) (_ ∷ lines) = skip n lines

has_name-append :
    (name : String) (xs ys : List AlertRule)
    → has_name name (xs ++ ys) ≡ (has_name name xs || has_name name ys)
has_name-append name [] ys = refl
has_name-append name (x ∷ xs) ys = ground (arith, has_name-append name xs ys)

module _ (cluster_id : String) where
  abbrev is_own : AlertRule → Bool
  is_own r = r.cluster_id == cluster_id

  filter-append :
      (xs ys : List AlertRule) → filter is_own (xs ++ ys) ≡ filter is_own xs ++ filter is_own ys
  filter-append [] ys = refl
  filter-append (x ∷ xs) ys = elim (Bool-cases (is_own x)) [
    | inl own ↦ simp (own, filter-append xs ys)
    | inr other ↦ simp (other, filter-append xs ys)
  ]

  -- All that is seeded is of this cluster.
  filter-seed_from :
      (uuid : ℕ → String) (existing : List AlertRule) (tpls : List Template)
      → filter is_own (seed_from uuid cluster_id existing tpls)
        ≡ seed_from uuid cluster_id existing tpls
  unfolding seed_from
  filter-seed_from uuid existing [] = refl
  filter-seed_from uuid existing (t ∷ rest) = elim (Bool-cases (has_name t.name existing)) [
    | inl known ↦ rw (seed_from, known) (filter-seed_from uuid existing rest)
    | inr fresh ↦
        simp (seed_from, fresh, eq_refl, filter-seed_from (λ n. uuid (n + 1)) existing rest)
  ]

  seed_from-known :
      (uuid : ℕ → String) (existing : List AlertRule) (tpls : List Template)
      → All (λ t. has_name t.name existing ≡ true) tpls
      → seed_from uuid cluster_id existing tpls ≡ []
  unfolding seed_from
  seed_from-known uuid existing [] h = refl
  seed_from-known uuid existing (t ∷ rest) h =
      rw (seed_from, h.0) (seed_from-known uuid existing rest h.1)

  abbrev IsNamed : List AlertRule → List AlertRule → Template → Type 0
  IsNamed existing added t = (has_name t.name existing || has_name t.name added) ≡ true

  -- Each template has its rule.
  Covers : List AlertRule → List AlertRule → List Template → Type 0
  Covers existing added tpls = All (IsNamed existing added) tpls

  Covers-nil : (existing added : List AlertRule) → Covers existing added []
  unfolding Covers
  Covers-nil existing added = tt

  Covers-cons :
      (existing added : List AlertRule) (t : Template) (rest : List Template)
      → IsNamed existing added t
      → Covers existing added rest
      → Covers existing added (t ∷ rest)
  unfolding Covers
  Covers-cons existing added t rest h hs = (h, hs)

  Covers-more :
      (existing added : List AlertRule) (r : AlertRule) (tpls : List Template)
      → Covers existing added tpls
      → Covers existing (r ∷ added) tpls
  unfolding Covers
  Covers-more existing added r [] h = tt
  Covers-more existing added r (t ∷ rest) h =
      (ground (arith, h.0), Covers-more existing added r rest h.1)

  seed_from-Covers :
      (uuid : ℕ → String) (existing : List AlertRule) (tpls : List Template)
      → Covers existing (seed_from uuid cluster_id existing tpls) tpls
  unfolding seed_from
  seed_from-Covers uuid existing [] = Covers-nil existing []
  seed_from-Covers uuid existing (t ∷ rest) = elim (Bool-cases (has_name t.name existing)) [
    | inl known ↦
        let added = seed_from uuid cluster_id existing rest in
        let e : seed_from uuid cluster_id existing (t ∷ rest) ≡ added =
          rw (seed_from, known) refl in
        rw e
          (Covers-cons existing added t rest (rw known refl) (seed_from-Covers uuid existing rest))
    | inr fresh ↦
        let later = seed_from (λ n. uuid (n + 1)) cluster_id existing rest in
        let r = seeded (uuid 0) cluster_id t in
        let e : seed_from uuid cluster_id existing (t ∷ rest) ≡ r ∷ later =
          rw (seed_from, fresh) refl in
        let named : IsNamed existing (r ∷ later) t = ground (arith, eq_refl t.name) in
        rw e (
          Covers-cons existing (r ∷ later) t rest named (
            Covers-more existing later r rest (seed_from-Covers (λ n. uuid (n + 1)) existing rest)))
  ]

-- Seeding the rules of a cluster a second time, with other uuids, adds nothing.
pub seed_default_rules_idem :
    (uuid uuid' : ℕ → String) (cluster_id : String) (rules : List AlertRule)
    → seed_default_rules uuid' cluster_id (seed_default_rules uuid cluster_id rules)
      ≡ seed_default_rules uuid cluster_id rules
unfolding seed_default_rules Covers
seed_default_rules_idem uuid uuid' cluster_id rules =
    let tpls = map (λ e. e.1) rule_templates in
    let existing = filter (λ r. r.cluster_id == cluster_id) rules in
    let added = seed_from uuid cluster_id existing tpls in
    let own : filter (λ r. r.cluster_id == cluster_id) (rules ++ added) ≡ existing ++ added =
      rw (filter-append cluster_id rules added, filter-seed_from cluster_id uuid existing tpls)
        refl in
    let known : All (λ t. has_name t.name (existing ++ added) ≡ true) tpls =
      All-map {P = IsNamed cluster_id existing added}
        {Q = λ t. has_name t.name (existing ++ added) ≡ true} tpls
        (λ t h. rw (has_name-append t.name existing added) h)
        (seed_from-Covers cluster_id uuid existing tpls) in
    rw (own, seed_from-known cluster_id uuid' (existing ++ added) tpls known, append-nil) refl
