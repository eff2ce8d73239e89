-- ===== src/ClusterPaths/Twice.antt =====
-- services/cluster_paths.py: `assign_paths_for_new_cluster`, called a second time.
use tantor_v.Prelude.{
  String, ◌≡◌, refl, true, false, not, ◌&&◌, ◌||◌, Option, none, some, ◌==◌, arith,
}
use tantor_v.Prelude.Dict.{Dict, lookup, insert}
use tantor_v.Json.{Value, text}
use tantor_v.Models.{Cluster, object, or_text}
use tantor_v.ClusterPaths.Assign.{
  legacy_sentinel, config_of, is_default, is_text, is_set, with_paths, sync_log_dirs,
  assign_paths_for_new_cluster,
}

module _ (s : String) (cfg : Dict Value) (at_s : lookup "log_dirs" cfg ≡ some (text s)) where
  sync_log_dirs_kept :
      (c : Cluster)
      → c.config_json ≡ object cfg
      → (s == "") ≡ false
      → (s == legacy_sentinel) ≡ false
      → sync_log_dirs false c ≡ c
  unfolding sync_log_dirs
  sync_log_dirs_kept c json filled own =
      let current : lookup "log_dirs" (config_of c.config_json) ≡ some (text s) = rw json at_s in
      rw (sync_log_dirs, current, filled, own) refl

  sync_log_dirs_forced :
      (c : Cluster) (d : String)
      → c.config_json ≡ object cfg
      → c.kafka_data_dir ≡ some d
      → (d == "") ≡ false
      → (s == d) ≡ false
      → (sync_log_dirs true c).config_json ≡ object (insert "log_dirs" (text d) cfg)
  unfolding sync_log_dirs
  sync_log_dirs_forced c d json dir filled apart =
      let current : lookup "log_dirs" (config_of c.config_json) ≡ some (text s) = rw json at_s in
      let own : or_text c.kafka_data_dir "" ≡ d = rw (dir, filled) refl in
      let other : is_text d (lookup "log_dirs" (config_of c.config_json)) ≡ false =
        rw (current, apart) refl in
      let gate : ((is_default (lookup "log_dirs" (config_of c.config_json)) || true)
            && not (
                is_text (or_text c.kafka_data_dir "")
                  (lookup "log_dirs" (config_of c.config_json))))
          ≡ true =
        rw (own, other) (ground arith) in
      rw (sync_log_dirs, gate, own, json) refl

-- What the paths leave alone, and what they keep.
with_paths-id : (c : Cluster) → (with_paths c).id ≡ c.id
unfolding with_paths
with_paths-id c = refl

with_paths-config_json : (c : Cluster) → (with_paths c).config_json ≡ c.config_json
unfolding with_paths
with_paths-config_json c = refl

with_paths-kafka_data_dir :
    (c : Cluster) (d : String)
    → c.kafka_data_dir ≡ some d
    → (d == "") ≡ false
    → (with_paths c).kafka_data_dir ≡ some d
unfolding with_paths
with_paths-kafka_data_dir c d dir filled = rw (dir, filled) refl

is_set-some : (o : Option String) (d : String) → o ≡ some d → (d == "") ≡ false → is_set o ≡ true
is_set-some o d e filled = rw (e, filled, filled) refl

-- Let a cluster have an id, no data directory, and a configuration whose "log_dirs" is a text of its
-- own: not empty, not the default of old clusters, and not the data directory that the first call
-- assigns, which is not empty. The first call leaves the configuration as it is; a second one writes
-- the data directory over its "log_dirs".
pub assign_paths_for_new_cluster_twice :
    (c : Cluster) (cfg : Dict Value) (s d : String)
    → (c.id == "") ≡ false
    → c.kafka_data_dir ≡ none
    → c.config_json ≡ object cfg
    → lookup "log_dirs" cfg ≡ some (text s)
    → (s == "") ≡ false
    → (s == legacy_sentinel) ≡ false
    → (assign_paths_for_new_cluster c).kafka_data_dir ≡ some d
    → (d == "") ≡ false
    → (s == d) ≡ false
    → ((assign_paths_for_new_cluster c).config_json ≡ object cfg)
      × ((assign_paths_for_new_cluster (assign_paths_for_new_cluster c)).config_json
          ≡ object (insert "log_dirs" (text d) cfg))
unfolding assign_paths_for_new_cluster
assign_paths_for_new_cluster_twice c cfg s d named unset json at_s filled own assigned given apart =
    let p = with_paths c in
    let json1 : p.config_json ≡ object cfg = rw (with_paths-config_json c) json in
    let json2 : (with_paths p).config_json ≡ object cfg = rw (with_paths-config_json p) json1 in
    let kept : sync_log_dirs false p ≡ p = sync_log_dirs_kept s cfg at_s p json1 filled own in
    let was : is_set c.kafka_data_dir ≡ false = rw unset refl in
    let once : assign_paths_for_new_cluster c ≡ p =
      rw (assign_paths_for_new_cluster, named, was) kept in
    let dir : p.kafka_data_dir ≡ some d = rw once at assigned in
    let dir2 = with_paths-kafka_data_dir p d dir given in
    let named' : (p.id == "") ≡ false = rw (with_paths-id c) named in
    let is : is_set p.kafka_data_dir ≡ true = is_set-some p.kafka_data_dir d dir given in
    let again : assign_paths_for_new_cluster p ≡ sync_log_dirs true (with_paths p) =
      rw (assign_paths_for_new_cluster, named', is) refl in
    (
      rw once json1,
      rw (once, again) (sync_log_dirs_forced s cfg at_s (with_paths p) d json2 dir2 given apart),
    )
