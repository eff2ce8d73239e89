-- ===== src/Upgrade/Offers.antt =====
-- services/upgrade_manager.py: what `get_available_upgrades` offers would pass the checks.
use tantor_v.Prelude.{
  String, ◌≡◌, refl, inl, inr, true, false, some, List, [], ◌∷◌, map, ◌==◌, eq_refl, arith, All,
  All-map, Bool-cases, Option-cases,
}
use tantor_v.Prelude.Sort.{All-sort_with}
use tantor_v.Prelude.Dict.{Dict, lookup}
use tantor_v.Prelude.Exec.{Result, ok, raised}
use tantor_v.Models.{Cluster, find_cluster}
use tantor_v.Upgrade.Repo.{
  Versions, RepoFile, Tarball, list_repo_versions, Upgrade, Upgrades, is_offered, offered,
  get_available_upgrades,
}
use tantor_v.Upgrade.Checks.{check_version, check_binary}

-- A key of a dict is found in it.
abbrev Has : Dict Tarball → String × Tarball → Type 0
Has d e = (t : Tarball) × (lookup e.0 d ≡ some t)

Has-head : (k : String) (t : Tarball) (d : Dict Tarball) → Has ((k, t) ∷ d) (k, t)
Has-head k t d = (t, simp eq_refl)

Has-tail :
    (k : String) (t : Tarball) (d : Dict Tarball) (e : String × Tarball)
    → Has d e
    → Has ((k, t) ∷ d) e
Has-tail k t d e h = elim (Bool-cases (k == e.0)) [
  | inl same ↦ (t, rw same refl)
  | inr other ↦ (h.0, rw other h.1)
]

All-Has : (d : Dict Tarball) → All (Has d) d
All-Has [] = tt
All-Has ((k, t) ∷ d) = (Has-head k t d, All-map d (Has-tail k t d) (All-Has d))

module _ {V : Type 0} (versions : Versions V) (dir : String) where
  -- Both checks that look at the version alone.
  abbrev pub Passes : Dict Tarball → String → Upgrade → Type 0
  Passes repo current u =
      ((check_version versions current u.version).1 ≡ true)
      × ((check_binary dir u.version repo).1 ≡ true)

  module _ (apart : (a b : V) → versions.lt a b ≡ true → versions.le b a ≡ false) where
    check_version-offered :
        (current ver : String) (v : V)
        → versions.parse ver ≡ some v
        → is_offered versions current ver v ≡ true
        → (check_version versions current ver).1 ≡ true
    unfolding check_version is_offered
    check_version-offered current ver v parsed o = elim (Option-cases (versions.parse current)) [
      | inl unread ↦ rw (unread, check_version) refl
      | inr (c, read) ↦
          let newer : versions.lt c v ≡ true = rw (read, is_offered) at o in
          let above : versions.le v c ≡ false = apart c v newer in
          rw (read, parsed, above, check_version) (ground arith)
    ]

    check_binary-found :
        (ver : String) (repo : Dict Tarball) (t : Tarball)
        → lookup ver repo ≡ some t
        → (check_binary dir ver repo).1 ≡ true
    unfolding check_binary
    check_binary-found ver repo t e = rw (e, check_binary) refl

    offered-Passes :
        (repo : Dict Tarball) (current : String) (rest : Dict Tarball)
        → All (Has repo) rest
        → All (λ p. Passes repo current p.1) (offered versions current rest)
    unfolding offered
    offered-Passes repo current [] h = tt
    offered-Passes repo current ((ver, info) ∷ rest) h = elim (Option-cases (versions.parse ver)) [
      | inl unread ↦ rw (unread, offered) (offered-Passes repo current rest h.1)
      | inr (v, read) ↦ elim (Bool-cases (is_offered versions current ver v)) [
        | inl taken ↦
            rw (read, offered)
              (rw taken (
                (
                  check_version-offered current ver v read taken,
                  check_binary-found ver repo h.0.0 h.0.1,
                ),
                offered-Passes repo current rest h.1,
              ))
        | inr left ↦ rw (read, offered) (rw left (offered-Passes repo current rest h.1))
      ]
    ]

All-map_second :
    {A B : Type 0} (P : B → Type 0) (xs : List (A × B))
    → All (λ p. P p.1) xs
    → All P (map (λ p. p.1) xs)
All-map_second P [] h = tt
All-map_second P (x ∷ xs) h = (h.0, All-map_second P xs h.1)

-- What holds of the value that is returned, if one is.
abbrev WhenOk : (Upgrades → Type 0) → Result Upgrades → Type 0
WhenOk R (ok u) = R u
WhenOk R (raised e) = Unit

module _ {V : Type 0} (versions : Versions V) (dir : String) (files : List RepoFile)
    (apart : (a b : V) → versions.lt a b ≡ true → versions.le b a ≡ false) where
  abbrev AllPass : Upgrades → Type 0
  AllPass u =
      All (Passes versions dir (list_repo_versions files []) u.current_version) u.available_upgrades

  get_available_upgrades-WhenOk :
      (cluster_id : String) (clusters : List Cluster)
      → WhenOk AllPass (get_available_upgrades versions files cluster_id clusters)
  unfolding get_available_upgrades
  get_available_upgrades-WhenOk cluster_id clusters =
      elim (Option-cases (find_cluster cluster_id clusters)) [
        | inl missing ↦ rw (missing, get_available_upgrades) tt
        | inr (c, here) ↦
            let repo = list_repo_versions files [] in
            let found = offered versions c.kafka_version repo in
            let P : Upgrade → Type 0 = Passes versions dir repo c.kafka_version in
            rw (here, get_available_upgrades)
              (All-map_second P _ (
                All-sort_with (λ p q. versions.lt p.0 q.0) (λ p. P p.1) found
                  (offered-Passes versions dir apart repo c.kafka_version repo (All-Has repo))))
      ]

-- Let a version that is above another not be at most it. Every upgrade that get_available_upgrades
-- offers passes the first two checks of an upgrade to it, while the files of the repository stay as
-- they are.
pub get_available_upgrades-Passes :
    {V : Type 0} (versions : Versions V) (dir : String) (files : List RepoFile)
    (cluster_id : String) (clusters : List Cluster) (u : Upgrades)
    → ((a b : V) → versions.lt a b ≡ true → versions.le b a ≡ false)
    → get_available_upgrades versions files cluster_id clusters ≡ ok u
    → All (Passes versions dir (list_repo_versions files []) u.current_version) u.available_upgrades
get_available_upgrades-Passes versions dir files cluster_id clusters u apart found =
    rw found at (get_available_upgrades-WhenOk versions dir files apart cluster_id clusters)
