-- ===== src/ClusterPaths/Assign.antt =====
-- services/cluster_paths.py: `_slug` and `assign_paths_for_new_cluster`.
use Prim.Native.Char.{Char, code}
use Prim.Native.String.{String, ◌++◌}
use tantor_v.Prelude.{
  Bool, true, false, not, ◌&&◌, ◌||◌, Option, none, some, [], ◌==◌, ℕ, eqb, leb, if◌then◌else◌,
}
use tantor_v.Prelude.Dict.{Dict, lookup, insert}
use tantor_v.Prelude.Text.{strip, lower, take_text}
use tantor_v.Json.{Value, null, text}
use tantor_v.Models.{Cluster, Column, absent, malformed, object, or_text}

-- `[A-Za-z0-9_-]`
abbrev pub is_safe : ℕ → Bool
is_safe c =
    (leb b'A' c && leb c b'Z')
    || (leb b'a' c && leb c b'z')
    || (leb b'0' c && leb c b'9')
    || eqb c b'_'
    || eqb c b'-'

abbrev first_of : Char → String → Char
first_of c String.[] = c
first_of c (String.◌∷◌ d s) = d

abbrev pub dash : Char → Char
dash c = first_of c "-"

-- The two `re.sub`: each run of other characters and of dashes becomes one dash. `after` says that
-- a dash stands in front.
unfoldable pub collapse : Bool → String → String
collapse after String.[] = ""
collapse after (String.◌∷◌ c s) =
    let here = String.◌∷◌ (dash c) (collapse true s) in
    let skipped = collapse true s in
    let kept = String.◌∷◌ c (collapse false s) in
    if is_safe (code c) && not (eqb (code c) b'-') then kept else if after then skipped else here

-- `s.strip("-")`, on both sides.
unfoldable pub lstrip_dash : String → String
lstrip_dash String.[] = ""
lstrip_dash (String.◌∷◌ c s) =
    let rest = lstrip_dash s in if eqb (code c) b'-' then rest else String.◌∷◌ c s

abbrev pub cons_unless_dash : Char → String → String
cons_unless_dash c String.[] = if eqb (code c) b'-' then "" else String.◌∷◌ c ""
cons_unless_dash c (String.◌∷◌ d s) = String.◌∷◌ c (String.◌∷◌ d s)

unfoldable pub rstrip_dash : String → String
rstrip_dash String.[] = ""
rstrip_dash (String.◌∷◌ c s) = cons_unless_dash c (rstrip_dash s)

-- `_slug`, where `lower` is that of the ASCII letters.
unfoldable pub slug : String → String
slug name =
    let s = rstrip_dash (lstrip_dash (collapse false (lower (strip name)))) in
    or_text (some (take_text 32 s)) "cluster"

abbrev pub legacy_sentinel : String
legacy_sentinel = "/var/lib/kafka/data"

-- `json.loads(cluster.config_json or "{}")`, or an empty dict where it raises.
abbrev pub config_of : Column → Dict Value
config_of absent = []
config_of malformed = []
config_of (object cfg) = cfg

-- `current_log_dirs in (None, "", legacy_sentinel)`
abbrev pub is_default : Option Value → Bool
is_default none = true
is_default (some null) = true
is_default (some (text s)) = s == "" || s == legacy_sentinel
is_default (some _) = false

abbrev pub is_text : String → Option Value → Bool
is_text s none = false
is_text s (some (text t)) = t == s
is_text s (some _) = false

abbrev pub suffix : Cluster → String
suffix c = slug c.name ++ ("-" ++ take_text 8 c.id)

abbrev pub is_set : Option String → Bool
is_set o = not (or_text o "" == "")

-- The three columns; one that is set stays.
unfoldable pub with_paths : Cluster → Cluster
with_paths c = record c {
  kafka_install_dir = some (or_text c.kafka_install_dir ("/opt/kafka-" ++ suffix c));
  kafka_data_dir = some (or_text c.kafka_data_dir ("/var/lib/kafka-" ++ (suffix c ++ "/data")));
  kafka_unit_name = some (or_text c.kafka_unit_name ("kafka-" ++ (suffix c ++ ".service")));
}

-- The synchronisation of "log_dirs", given whether the data directory was set before.
unfoldable pub sync_log_dirs : Bool → Cluster → Cluster
sync_log_dirs custom_data_dir c =
    let cfg = config_of c.config_json in
    let current = lookup "log_dirs" cfg in
    let data_dir = or_text c.kafka_data_dir "" in
    if (is_default current || custom_data_dir) && not (is_text data_dir current)
    then record c { config_json = object (insert "log_dirs" (text data_dir) cfg) }
    else c

-- `assign_paths_for_new_cluster`
unfoldable pub assign_paths_for_new_cluster : Cluster → Cluster
assign_paths_for_new_cluster c =
    if c.id == "" then c else sync_log_dirs (is_set c.kafka_data_dir) (with_paths c)
