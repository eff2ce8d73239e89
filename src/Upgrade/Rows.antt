-- ===== src/Upgrade/Rows.antt =====
-- services/upgrade_manager.py: what an upgrade writes to the row of the cluster.
use tantor_v.Prelude.{
  String, ◌≡◌, some, List, [], ◌∷◌, eq_iff, arith, Option-cases, inl, inr, refl, none,
}
use tantor_v.Models.{Cluster, find_cluster}
use tantor_v.Upgrade.Run.{update_cluster}
use tantor_v.Upgrade.Steps.{version_in, version_of}

no_version : (version : String) → version_in none ≡ some version → ⊥
no_version version e = ground arith

module _ (id : String) where
  pub find_cluster-update_cluster :
      (f : Cluster → Cluster) (clusters : List Cluster) (c : Cluster)
      → ((k : Cluster) → (f k).id ≡ k.id)
      → find_cluster id clusters ≡ some c
      → find_cluster id (update_cluster id f clusters) ≡ some (f c)
  find_cluster-update_cluster f [] c same e = ground arith
  find_cluster-update_cluster f (k ∷ rest) c same e =
      ground (arith, eq_iff k.id id, same k, find_cluster-update_cluster f rest c same)

  pub version_of-found :
      (clusters : List Cluster) (version : String)
      → version_of id clusters ≡ some version
      → (c : Cluster) × (find_cluster id clusters ≡ some c)
  version_of-found clusters version e = elim (Option-cases (find_cluster id clusters)) [
    | inl missing ↦ absurd (no_version version (rw missing at e))
    | inr found ↦ found
  ]

  -- A change of the state alone leaves the version.
  pub version_of-update_cluster :
      (state : String) (clusters : List Cluster)
      → version_of id (update_cluster id (λ c. record c { state = state }) clusters)
        ≡ version_of id clusters
  version_of-update_cluster state [] = refl
  version_of-update_cluster state (k ∷ rest) =
      ground (arith, eq_iff k.id id, version_of-update_cluster state rest)
