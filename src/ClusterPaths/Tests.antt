-- ===== src/ClusterPaths/Tests.antt =====
-- Paths of a new cluster, and the theorems at concrete inputs.
use tantor_v.Prelude.{◌≡◌, ◌≤◌, refl, true, false, none, [], ◌∷◌}
use tantor_v.Prelude.Text.{strip, lower, take_text}
use tantor_v.Prelude.Dict.{Dict}
use tantor_v.Json.{Value, text}
use tantor_v.Models.{Cluster, object}
use tantor_v.ClusterPaths.Assign.{
  slug, collapse, lstrip_dash, rstrip_dash, with_paths, sync_log_dirs, assign_paths_for_new_cluster,
}
use tantor_v.ClusterPaths.Slugs.{size, are_safe, slug_lem}
use tantor_v.ClusterPaths.Twice.{assign_paths_for_new_cluster_twice}

slug_example : slug " My  Prod-- (EU) " ≡ "my-prod-eu"
unfolding slug collapse lstrip_dash rstrip_dash strip lower take_text
slug_example = refl

slug_lem_example :
    (1 ≤ size (slug "Ünïcode!"))
    × (size (slug "Ünïcode!") ≤ 32)
    × (are_safe (slug "Ünïcode!") ≡ true)
slug_lem_example = slug_lem "Ünïcode!"

abbrev config : Dict Value
config = ("log_dirs", text "/mnt/logs") ∷ []

abbrev fresh : Cluster
fresh = record {
  id = "0123456789";
  name = "prod";
  kafka_version = "3.7.0";
  mode = "kraft";
  state = "configured";
  config_json = object config;
  cluster_uuid = none;
  kind = "managed";
  bootstrap_servers = none;
  ssl_enabled = false;
  kafka_install_dir = none;
  kafka_data_dir = none;
  kafka_unit_name = none;
}

assign_paths_for_new_cluster_twice_example :
    ((assign_paths_for_new_cluster fresh).config_json ≡ object config)
    × ((assign_paths_for_new_cluster (assign_paths_for_new_cluster fresh)).config_json
        ≡ object (("log_dirs", text "/var/lib/kafka-prod-01234567/data") ∷ []))
unfolding assign_paths_for_new_cluster with_paths sync_log_dirs slug collapse lstrip_dash
    rstrip_dash strip lower take_text
assign_paths_for_new_cluster_twice_example =
    assign_paths_for_new_cluster_twice fresh config "/mnt/logs" "/var/lib/kafka-prod-01234567/data"
      refl refl refl refl refl refl refl refl refl
