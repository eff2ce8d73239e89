-- ===== src/Manager/Status.antt =====
-- services/cluster_manager.py: `sync_cluster_state_from_services` and `get_cluster_status`.
use tantor_v.Prelude.{
  String, Bool, true, false, ◌&&◌, ◌||◌, not, Option, none, some, List, [], ◌∷◌, ◌==◌, all, any,
  filter, map, if◌then◌else◌,
}
use tantor_v.Prelude.Text.{lower}
use tantor_v.Prelude.Exec.{Exec, pure, gets, try_except, ◌>>=◌, ◌>>◌}
use tantor_v.Models.{
  Cluster, Service, Host, Role, has_managed_kind, find_host, set_status, find_cluster,
}
use tantor_v.Remote.{Machines, connect, on_db, agent_available}
use tantor_v.Transport.{systemctl_is_active}
use tantor_v.Manager.Units.{is_in, is_core_role, unit_candidates, unit_for}
use tantor_v.Manager.Ssh.{Command, W, is_known, or_message, probe_status}
use tantor_v.Manager.Lifecycle.{set_state, services_of}

-- `(svc.status or "").lower()` of the core services, one for each.
unfoldable pub core_statuses : List Service → List String
core_statuses services = map (λ s. lower s.status) (filter (λ s. is_core_role s.role) services)

-- The choice of `new_state`; `statuses == {s}` on a set that is not empty.
unfoldable pub next_state : String → List String → Option String
next_state current statuses =
    if is_in "error" statuses
    then some "error"
    else if all (λ s. s == "running") statuses
    then some "running"
    else if all (λ s. s == "stopped") statuses
    then some "stopped"
    else if current == "running" && any (λ s. not (s == "running")) statuses
    then some "error"
    else none

abbrev pub state_for : Cluster → List String → Option String
state_for cluster [] = none
state_for cluster (s ∷ rest) = elim (next_state cluster.state (s ∷ rest)) [
  | none ↦ none
  | some state ↦ if cluster.state == state then none else some state
]

-- The new state that `sync_cluster_state_from_services` writes, if it writes one.
unfoldable pub sync_state : Option Cluster → List Service → Option String
unfolding core_statuses next_state
sync_state none services = none
sync_state (some cluster) services =
    if not (has_managed_kind cluster) || cluster.state == "deploying"
    then none
    else state_for cluster (core_statuses services)

-- A row of the answer; a service without a host has only the first four.
pub record StatusRow : Type 0 where
  pub service_id : String
  pub host : String
  pub role : Role
  pub status : String
  pub unit : Option String
  pub raw : Option String
  pub error : Option String
  pub via : Option String

-- The status that a raw state of systemd stands for; another state leaves the status.
unfoldable pub shown_status : String → String → String
shown_status before raw =
    if raw == "active" || raw == "activating"
    then "running"
    else if raw == "inactive"
    then "stopped"
    else if raw == "failed"
    then "error"
    else before

module _ (net : Machines Command) where
  -- `agent_transport.try_systemctl_is_active`
  unfoldable pub try_systemctl_is_active : Host → String → Exec W (Option (Bool × String))
  try_systemctl_is_active host unit = do
    agent ← agent_available net host.id
    if agent
        then try_except (systemctl_is_active net host unit >>= λ r. pure (some r)) (λ _. pure none)
        else pure none

  -- The loop over the candidates, with the unit and raw state found so far.
  unfoldable pub ask_agent :
      Host → Option (String × String) → List String → Exec W (Option (String × String))
  ask_agent host found [] = pure found
  ask_agent host found (cand ∷ rest) = do
    res ← try_systemctl_is_active host cand
    elim res [
      | none ↦ pure found
      | some (ok, raw) ↦ elim (is_known raw) [
        | true ↦ pure (some (cand, raw))
        | false ↦
            ask_agent host
              (elim found [ none ↦ some (cand, or_message raw "unknown") | some f ↦ some f ]) rest
      ]
    ]

  module _ (cluster : Option Cluster) (svc : Service) (host : Host) where
    unfoldable pub ask_first : Bool → Exec W (Option (String × String))
    ask_first false = pure none
    ask_first true = ask_agent host none (unit_candidates cluster svc.role)

    unfoldable pub probe_unless : Option (String × String) → Exec W (String × String)
    probe_unless (some found) = pure found
    probe_unless none = do
      connect net host
      probe_status net host (unit_candidates cluster svc.role)

    -- The body of the `try`.
    unfoldable pub look_at : Exec W StatusRow
    look_at = do
      agent ← agent_available net host.id
      found ← ask_first agent
      probed ← probe_unless found
      let status = shown_status svc.status probed.1
      on_db λ d. record d { services = set_status svc.id status d.services }
      still ← agent_available net host.id
      pure (record {
        service_id = svc.id;
        host = host.ip_address;
        role = svc.role;
        status = status;
        unit = some probed.0;
        raw = some probed.1;
        error = none;
        via = some (if still then "agent" else "ssh");
      })

    unfoldable pub service_status : Exec W StatusRow
    service_status = try_except look_at λ e. pure (record {
      service_id = svc.id;
      host = host.ip_address;
      role = svc.role;
      status = svc.status;
      unit = some (unit_for cluster svc.role);
      raw = none;
      error = some e.text;
      via = none;
    })

  abbrev pub unknown_row : Service → StatusRow
  unknown_row svc = record {
    service_id = svc.id;
    host = "unknown";
    role = svc.role;
    status = "unknown";
    unit = none;
    raw = none;
    error = none;
    via = none;
  }

  module _ (hosts : List Host) (cluster_id : String) where
    unfoldable pub status_rows : Option Cluster → List Service → Exec W (List StatusRow)
    status_rows cluster [] = pure []
    status_rows cluster (svc ∷ rest) = do
      row ← elim (find_host svc.host_id hosts) [
        | none ↦ pure (unknown_row svc)
        | some host ↦ service_status cluster svc host
      ]
      later ← status_rows cluster rest
      pure (row ∷ later)

    abbrev write_state : Option String → List Cluster → List Cluster
    write_state none clusters = clusters
    write_state (some state) clusters = set_state cluster_id state clusters

    -- `sync_cluster_state_from_services(cluster, services)`, on the rows as they are now.
    unfoldable pub sync_cluster_state : Exec W (Unit {0})
    sync_cluster_state = on_db λ d. record d {
      clusters =
          write_state
            (sync_state (find_cluster cluster_id d.clusters) (services_of cluster_id d.services))
            d.clusters;
    }

    unfoldable pub get_cluster_status : Exec W (List StatusRow)
    get_cluster_status = do
      cluster ← gets (λ w. find_cluster cluster_id w.db.clusters)
      services ← gets (λ w. services_of cluster_id w.db.services)
      rows ← status_rows cluster services
      sync_cluster_state
      pure rows
