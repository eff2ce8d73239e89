-- ===== src/Upgrade/Repo.antt =====
-- services/upgrade_manager.py: the archives of the repository (`_list_repo_versions`) and the
-- versions that a cluster can be upgraded to (`get_available_upgrades`). `packaging.version` is a
-- parameter.
use tantor_v.Prelude.{
  ℕ, String, Bool, ◌&&◌, ◌||◌, not, Option, none, some, List, [], ◌∷◌, ◌==◌, leb, if◌then◌else◌,
  ◌≡◌, refl, map,
}
use Prim.Native.Char.{Char, code}
use tantor_v.Prelude.Sort.{sort_with}
use tantor_v.Prelude.Dict.{Dict, insert}
use tantor_v.Prelude.Text.{concat, strip_prefix}
use tantor_v.Prelude.Exec.{Failure, Result, ok, raised}
use tantor_v.Models.{Cluster, find_cluster}

-- `packaging.version.Version`: `parse` is the constructor, which raises on some texts.
pub record Versions (V : Type 0) : Type 0 where
  pub parse : String → Option V
  pub le : V → V → Bool
  pub lt : V → V → Bool
  pub major : V → ℕ

-- A file "*.tgz" of the directory, with its size as `round(…, 1)` prints it.
pub record RepoFile : Type 0 where
  pub name : String
  pub path : String
  pub size_mb : String

pub record Tarball : Type 0 where
  pub scala_version : String
  pub filename : String
  pub path : String
  pub size_mb : String

infixl 10 ◌>>=◌
abbrev ◌>>=◌ {ℓ κ} : {A : Type ℓ} {B : Type κ} → Option A → (A → Option B) → Option B
◌>>=◌ none f = none
◌>>=◌ (some a) f = f a

abbrev is_digit : Char → Bool
is_digit c = leb 48 (code c) && leb (code c) 57

-- The digits that a text begins with, and the rest.
digits : String → String × String
digits String.[] = ("", "")
digits (String.◌∷◌ c s) =
    let (d, rest) = digits s in if is_digit c then (String.◌∷◌ c d, rest) else ("", String.◌∷◌ c s)

-- `\d+` in front of `mark`: the digits and what follows the mark.
number_before : String → String → Option (String × String)
unfolding digits
number_before mark s =
    let (d, rest) = digits s in
    if d == "" then none else (do rest' ← strip_prefix mark rest; some (d, rest'))

-- `KAFKA_TGZ_PATTERN.match(name)`, on names with ASCII digits: the versions of Scala and Kafka.
unfoldable pub match_tgz : String → Option (String × String)
unfolding number_before
match_tgz name = do
  s ← strip_prefix "kafka_" name
  (a, s) ← number_before "." s
  (b, s) ← number_before "-" s
  (c, s) ← number_before "." s
  (d, s) ← number_before "." s
  (e, s) ← number_before ".tgz" s
  if s == "" || s == "\n"
      then some (concat (a ∷ "." ∷ b ∷ []), concat (c ∷ "." ∷ d ∷ "." ∷ e ∷ []))
      else none

-- `_list_repo_versions`, on the files that the glob gives.
unfoldable pub list_repo_versions : List RepoFile → Dict Tarball → Dict Tarball
unfolding match_tgz
list_repo_versions [] versions = versions
list_repo_versions (f ∷ rest) versions = elim (match_tgz f.name) [
  | none ↦ list_repo_versions rest versions
  | some (scala_ver, kafka_ver) ↦ list_repo_versions rest (
      insert kafka_ver
        (record {
          scala_version = scala_ver;
          filename = f.name;
          path = f.path;
          size_mb = f.size_mb;
        })
        versions)
]

pub record Upgrade : Type 0 where
  pub version : String
  pub scala_version : String
  pub filename : String
  pub size_mb : String

pub record Upgrades : Type 0 where
  pub cluster_id : String
  pub cluster_name : String
  pub current_version : String
  pub available_upgrades : List Upgrade

abbrev upgrade_of : String → Tarball → Upgrade
upgrade_of ver info = record {
  version = ver;
  scala_version = info.scala_version;
  filename = info.filename;
  size_mb = info.size_mb;
}

abbrev pub not_found : String → Failure
not_found cluster_id = record {
  class_name = "ValueError";
  text = concat ("Cluster " ∷ cluster_id ∷ " not found" ∷ []);
}

module _ {V : Type 0} (versions : Versions V) where
  -- Whether the loop appends a version that it could read.
  unfoldable pub is_offered : String → String → V → Bool
  is_offered current_version ver v = elim (versions.parse current_version) [
    | some current ↦ versions.lt current v
    | none ↦ not (ver == current_version)
  ]

  -- `for ver, info in repo_versions.items()`
  unfoldable pub offered : String → Dict Tarball → List (V × Upgrade)
  offered current_version [] = []
  offered current_version ((ver, info) ∷ rest) =
      let later = offered current_version rest in
      elim (versions.parse ver) [
        | none ↦ later
        | some v ↦
            if is_offered current_version ver v then (v, upgrade_of ver info) ∷ later else later
      ]

  -- `get_available_upgrades`
  unfoldable pub get_available_upgrades : List RepoFile → String → List Cluster → Result Upgrades
  get_available_upgrades files cluster_id clusters = elim (find_cluster cluster_id clusters) [
    | none ↦ raised (not_found cluster_id)
    | some cluster ↦ ok (record {
      cluster_id = cluster_id;
      cluster_name = cluster.name;
      current_version = cluster.kafka_version;
      available_upgrades =
          map (λ p. p.1)
            (sort_with (λ p q. versions.lt p.0 q.0)
              (offered cluster.kafka_version (list_repo_versions files [])));
    })
  ]

match_tgz_lem : match_tgz "kafka_2.13-3.7.0.tgz" ≡ some ("2.13", "3.7.0")
unfolding match_tgz strip_prefix concat
match_tgz_lem = refl
