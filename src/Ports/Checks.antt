-- ===== src/Ports/Checks.antt =====
-- services/port_preflight.py: the checks of a deploy, and running them host by host.
use tantor_v.Prelude.{
  ℕ, String, Bool, true, false, ◌||◌, none, some, List, [], ◌∷◌, ◌++◌, ◌==◌, map, leb,
  if◌then◌else◌,
}
use tantor_v.Prelude.Int.{ℤ, pos, negsuc}
use tantor_v.Prelude.Text.{concat, take_text}
use tantor_v.Prelude.Dict.{Dict, lookup}
use tantor_v.Prelude.Exec.{Failure, Result, ok, raised, Exec, pure, try_except, ◌>>=◌, ◌>>◌}
use tantor_v.Models.{
  Cluster, Service, Host, broker, broker_controller, controller, schema_registry, ksqldb,
  kafka_connect, other, zookeeper, find_host,
}
use tantor_v.Json.{Value, truthy, int_of}
use tantor_v.Remote.{Machines, World, connect}
use tantor_v.Ports.Listening.{PortCommand, Holders, eq_ℤ, holder, list_listening}

-- `host_ip` is always "" in the checks that are made here.
pub record PortCheck : Type 0 where
  pub host_id : String
  pub port : ℤ
  pub label : String

pub record PortConflict : Type 0 where
  pub host_ip : String
  pub port : ℤ
  pub label : String
  pub process : String

-- `int(config.get(key, default))`: what `int` refuses is raised.
unfoldable pub int_config_or_raise : Dict Value → String → ℕ → Result ℤ
int_config_or_raise config key default = elim (lookup key config) [
  | none ↦ ok (pos default)
  | some v ↦ elim (int_of v) [
    | some n ↦ ok n
    | none ↦ raised (record { class_name = "ValueError"; text = key })
  ]
]

pub record PortPlan : Type 0 where
  pub listener : ℤ
  pub controller : ℤ
  pub ssl_listener : ℤ
  pub schema_registry : ℤ
  pub ksqldb : ℤ
  pub connect_rest : ℤ

abbrev pub bind : {A B : Type 0} → Result A → (A → Result B) → Result B
bind (ok a) f = f a
bind (raised e) f = raised e

-- The six numbers at the top of `cluster_port_checks`.
unfoldable pub port_plan : Dict Value → Result PortPlan
unfolding int_config_or_raise
port_plan config = bind (int_config_or_raise config "listener_port" 9092) λ l.
    bind (int_config_or_raise config "controller_port" 9093) λ c.
      bind (int_config_or_raise config "ssl_listener_port" 9096) λ s.
        bind (int_config_or_raise config "schema_registry_port" 8085) λ r.
          bind (int_config_or_raise config "ksqldb_port" 8088) λ k.
            bind (int_config_or_raise config "connect_rest_port" 8083) λ n. ok (record {
              listener = l;
              controller = c;
              ssl_listener = s;
              schema_registry = r;
              ksqldb = k;
              connect_rest = n;
            })

abbrev pub is_set : String → Dict Value → Bool
is_set key config = elim (lookup key config) [ none ↦ false | some v ↦ truthy v ]

abbrev check : Service → ℤ → String → PortCheck
check svc port label = record { host_id = svc.host_id; port = port; label = label }

-- The checks of one service.
unfoldable pub service_checks : PortPlan → Bool → Service → List PortCheck
service_checks plan ssl svc = elim svc.role [
  | broker ↦
      check svc plan.listener "listener"
      ∷ (if ssl then check svc plan.ssl_listener "ssl_listener" ∷ [] else [])
  | broker_controller ↦
      check svc plan.listener "listener"
      ∷ ((if ssl then check svc plan.ssl_listener "ssl_listener" ∷ [] else [])
          ++ check svc plan.controller "controller" ∷ [])
  | controller ↦ check svc plan.controller "controller" ∷ []
  | schema_registry ↦ check svc plan.schema_registry "schema_registry" ∷ []
  | ksqldb ↦ check svc plan.ksqldb "ksqldb" ∷ []
  | kafka_connect ↦ check svc plan.connect_rest "kafka_connect" ∷ []
  | zookeeper ↦ []
  | other _ ↦ []
]

unfoldable pub all_checks : PortPlan → Bool → List Service → List PortCheck
all_checks plan ssl [] = []
all_checks plan ssl (svc ∷ rest) = service_checks plan ssl svc ++ all_checks plan ssl rest

-- `cluster_port_checks`; "ssl_enabled" of the config or of the row.
unfoldable pub cluster_port_checks : Cluster → List Service → Dict Value → Result (List PortCheck)
unfolding all_checks service_checks
cluster_port_checks cluster services config =
    bind (port_plan config)
      λ plan. ok (all_checks plan (is_set "ssl_enabled" config || cluster.ssl_enabled) services)

-- `by_host.setdefault(host_id, []).append(c)`
unfoldable pub add_check : PortCheck → Dict (List PortCheck) → Dict (List PortCheck)
add_check c [] = (c.host_id, c ∷ []) ∷ []
add_check c ((id, cs) ∷ rest) =
    if id == c.host_id then (id, cs ++ c ∷ []) ∷ rest else (id, cs) ∷ add_check c rest

unfoldable pub group_onto : Dict (List PortCheck) → List PortCheck → Dict (List PortCheck)
unfolding add_check
group_onto groups [] = groups
group_onto groups (c ∷ rest) = group_onto (add_check c groups) rest

abbrev pub le_ℤ : ℤ → ℤ → Bool
le_ℤ (negsuc a) (negsuc b) = leb b a
le_ℤ (negsuc a) (pos b) = true
le_ℤ (pos a) (negsuc b) = false
le_ℤ (pos a) (pos b) = leb a b

-- `sorted` on a set: in order, each once.
unfoldable pub insert_port : ℤ → List ℤ → List ℤ
insert_port p [] = p ∷ []
insert_port p (q ∷ rest) =
    if eq_ℤ p q then q ∷ rest else if le_ℤ p q then p ∷ q ∷ rest else q ∷ insert_port p rest

unfoldable pub sorted_ports : List ℤ → List ℤ
unfolding insert_port
sorted_ports [] = []
sorted_ports (p ∷ rest) = insert_port p (sorted_ports rest)

-- The checks of one host whose port is held.
unfoldable pub conflicts_on : Host → Holders → List PortCheck → List PortConflict
conflicts_on host held [] = []
conflicts_on host held (c ∷ rest) = elim (holder c.port held) [
  | none ↦ conflicts_on host held rest
  | some process ↦
      (record { host_ip = host.ip_address; port = c.port; label = c.label; process = process })
      ∷ conflicts_on host held rest
]

-- The row for a host that could not be asked.
abbrev pub unasked : Host → Failure → PortConflict
unasked host e = record {
  host_ip = host.ip_address;
  port = pos 0;
  label = concat ("ssh-precheck-failed:" ∷ e.class_name ∷ []);
  process = take_text 100 e.text;
}

module _ {C D : Type 0} (net : Machines C) (embed : PortCommand → C) where
  unfoldable pub check_host : Host → List PortCheck → Exec (World C D) (List PortConflict)
  unfolding conflicts_on sorted_ports
  check_host host checks =
      try_except
        (connect net host
          >> (list_listening net embed host (sorted_ports (map (λ (c : PortCheck). c.port) checks))
              >>= λ held. pure (conflicts_on host held checks)))
        (λ e. pure (unasked host e ∷ []))

  unfoldable pub check_groups :
      Dict (List PortCheck) → List Host → Exec (World C D) (List PortConflict)
  unfolding check_host
  check_groups [] hosts = pure []
  check_groups ((id, checks) ∷ rest) hosts = elim (find_host id hosts) [
    | none ↦ check_groups rest hosts
    | some host ↦
        check_host host checks >>= λ here. check_groups rest hosts >>= λ later. pure (here ++ later)
  ]

  -- `check_ports`
  unfoldable pub check_ports : List PortCheck → List Host → Exec (World C D) (List PortConflict)
  unfolding check_groups group_onto
  check_ports checks hosts = check_groups (group_onto [] checks) hosts
