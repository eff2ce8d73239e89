-- ===== src/Models.antt =====
-- The rows of backend/app/models that the services read and write (cluster.py, service.py,
-- host.py), with the columns that the modelled code uses. A column that may be NULL is an `Option`.
-- The JSON column `config_json` stands as what `json.loads` makes of it.
use tantor_v.Json.{Value}
use tantor_v.Prelude.{
  ◌≡◌, eq_iff, arith, String, Bool, Option, none, some, List, [], ◌∷◌, ℕ, ◌==◌, if◌then◌else◌,
}
use tantor_v.Prelude.Dict.{Dict}

-- The text of a JSON column: NULL or empty, not JSON, or an object.
pub data Column : Type 0 where
  absent malformed : Column
  object : Dict Value → Column

-- `Service.role`: the values that the code tells apart, and any other text.
pub data Role : Type 0 where
  broker broker_controller controller zookeeper ksqldb kafka_connect schema_registry : Role
  other : String → Role

pub record Cluster : Type 0 where
  pub id : String
  pub name : String
  pub kafka_version : String
  pub mode : String
  pub state : String
  pub config_json : Column
  pub cluster_uuid : Option String
  pub kind : String
  pub bootstrap_servers : Option String
  pub ssl_enabled : Bool
  pub kafka_install_dir : Option String
  pub kafka_data_dir : Option String
  pub kafka_unit_name : Option String

pub record Service : Type 0 where
  pub id : String
  pub cluster_id : String
  pub host_id : String
  pub role : Role
  pub node_id : ℕ
  pub status : String

pub record Host : Type 0 where
  pub id : String
  pub hostname : String
  pub ip_address : String

-- `x or d` on a text that may be None.
abbrev pub or_text : Option String → String → String
or_text none d = d
or_text (some s) d = if s == "" then d else s

-- `(cluster.kind or "managed") == "managed"`
abbrev pub has_managed_kind : Cluster → Bool
has_managed_kind c = or_text (some c.kind) "managed" == "managed"

-- `{h.id: h for h in rows}.get(id)`: of two rows with one id the later one counts.
abbrev pub find_host : String → List Host → Option Host
find_host id [] = none
find_host id (h ∷ rest) = elim (find_host id rest) [
  | some later ↦ some later
  | none ↦ if h.id == id then some h else none
]

-- `svc.status = status` on the row with this id, in the session's list of rows.
abbrev pub set_status : String → String → List Service → List Service
set_status id status [] = []
set_status id status (svc ∷ rest) =
    (if svc.id == id then record svc { status = status } else svc) ∷ set_status id status rest

-- `db.query(Cluster).filter(Cluster.id == id).first()`
abbrev pub find_cluster : String → List Cluster → Option Cluster
find_cluster id [] = none
find_cluster id (c ∷ rest) = if c.id == id then some c else find_cluster id rest

pub find_host-id :
    (id : String) (hosts : List Host) (h : Host) → find_host id hosts ≡ some h → h.id ≡ id
find_host-id id [] h e = ground arith
find_host-id id (k ∷ rest) h e = ground (arith, eq_iff k.id id, find_host-id id rest h)

pub find_cluster-id :
    (id : String) (clusters : List Cluster) (c : Cluster)
    → find_cluster id clusters ≡ some c
    → c.id ≡ id
find_cluster-id id [] c e = ground arith
find_cluster-id id (k ∷ rest) c e = ground (arith, eq_iff k.id id, find_cluster-id id rest c)
