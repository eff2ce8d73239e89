-- ===== src/Agents/Registry.antt =====
-- services/agent_registry.py: `AgentRegistry`. The methods run under its lock, so each is one step.
use tantor_v.Prelude.{
  ℕ, String, ◌≡◌, refl, Bool, true, false, ◌&&◌, Option, none, some, List, [], ◌∷◌, ◌==◌, eq_iff,
  eq_refl, map, length, arith, if◌then◌else◌,
}
use tantor_v.Prelude.Dict.{Dict, lookup, insert, erase, lookup-insert, lookup-erase}

-- An `AgentSession`; the WebSocket stands as its identity.
pub record Session : Type 0 where
  pub agent_id : String
  pub host_id : String
  pub websocket : String

pub record Registry : Type 0 where
  pub by_host : Dict Session
  pub by_agent : Dict Session

abbrev pub empty : Registry
empty = record { by_host = []; by_agent = [] }

-- `register`: the session that it replaces comes back.
pub register : Session → Registry → Registry × Option Session
register session r = (
  record {
    by_host = insert session.host_id session r.by_host;
    by_agent = insert session.agent_id session r.by_agent;
  },
  lookup session.host_id r.by_host,
)

-- `current and current.agent_id == session.agent_id`
abbrev pub is_agent : Option Session → Session → Bool
is_agent none session = false
is_agent (some current) session = current.agent_id == session.agent_id

pub remove : Session → Registry → Registry
remove session r = record {
  by_host =
      if is_agent (lookup session.host_id r.by_host) session
      then erase session.host_id r.by_host
      else r.by_host;
  by_agent = erase session.agent_id r.by_agent;
}

-- The first session in `self._by_host.values()` with this WebSocket.
find_session : String → Dict Session → Option Session
find_session ws [] = none
find_session ws ((_, s) ∷ rest) = if s.websocket == ws then some s else find_session ws rest

pub remove_for_session_if_present : String → Registry → Registry
unfolding find_session
remove_for_session_if_present ws r = elim (find_session ws r.by_host) [
  | none ↦ r
  | some target ↦ remove target r
]

pub get : String → Registry → Option Session
get host_id r = lookup host_id r.by_host

pub is_connected : String → Registry → Bool
is_connected host_id r = elim (lookup host_id r.by_host) [ none ↦ false | some _ ↦ true ]

pub connected_host_ids : Registry → List String
connected_host_ids r = map (λ e. e.0) r.by_host

pub session_count : Registry → ℕ
session_count r = length r.by_host

-- A session is found under its own host and its own agent.
pub record IsConsistent (r : Registry) : Type 0 where
  pub hosts : (h : String) (s : Session) → lookup h r.by_host ≡ some s → s.host_id ≡ h
  pub agents : (a : String) (s : Session) → lookup a r.by_agent ≡ some s → s.agent_id ≡ a

empty-IsConsistent : IsConsistent empty
empty-IsConsistent = record { hosts = λ h s e. cc; agents = λ a s e. cc }

register-IsConsistent :
    (session : Session) (r : Registry) → IsConsistent r → IsConsistent (register session r).0
unfolding register
register-IsConsistent session r c = record {
  hosts = λ h s. simp lookup-insert (ground (arith, eq_iff session.host_id h, c.hosts h s));
  agents = λ a s. simp lookup-insert (ground (arith, eq_iff session.agent_id a, c.agents a s));
}

remove-IsConsistent :
    (session : Session) (r : Registry) → IsConsistent r → IsConsistent (remove session r)
unfolding remove
remove-IsConsistent session r c = record {
  hosts = λ h s. ground (arith, lookup-erase session.host_id h r.by_host, c.hosts h s);
  agents = λ a s. ground (arith, lookup-erase session.agent_id a r.by_agent, c.agents a s);
}

-- What the WebSocket handlers do to the registry.
pub data Change : Registry → Registry → Type 0 where
  registers : (s : Session) (r : Registry) → Change r (register s r).0
  removes : (s : Session) (r : Registry) → Change r (remove s r)
  drops : (ws : String) (r : Registry) → Change r (remove_for_session_if_present ws r)

pub data Reaches (r : Registry) : Registry → Type 0 where
  here : Reaches r r
  next : {s t : Registry} → Reaches r s → Change s t → Reaches r t

Change-IsConsistent : {r s : Registry} → Change r s → IsConsistent r → IsConsistent s
unfolding remove_for_session_if_present
Change-IsConsistent (registers s r) c = register-IsConsistent s r c
Change-IsConsistent (removes s r) c = remove-IsConsistent s r c
Change-IsConsistent (drops ws r) c = dropped (find_session ws r.by_host)
  where
    dropped :
        (found : Option Session)
        → IsConsistent (elim found [ none ↦ r | some target ↦ remove target r ])
    dropped none = c
    dropped (some target) = remove-IsConsistent target r c

-- However agents connect and disconnect, a session that the registry gives for a host is a session
-- of that host, and one that it keeps for an agent is that agent's.
pub Reaches-IsConsistent : {r : Registry} → Reaches empty r → IsConsistent r
Reaches-IsConsistent here = empty-IsConsistent
Reaches-IsConsistent (next path change) = Change-IsConsistent change (Reaches-IsConsistent path)

-- Registering a session makes it the one of its host, leaves the other hosts as they were, and
-- reports the session that it replaces.
pub register_lem :
    (s : Session) (r : Registry) (h : String)
    → (get h (register s r).0 ≡ (if s.host_id == h then some s else get h r))
      × ((register s r).1 ≡ get s.host_id r)
unfolding register get
register_lem s r h = (ground (arith, lookup-insert s.host_id h s r.by_host), refl)

-- Removing a session of another agent than the one that is registered for its host leaves every
-- host as it was; if its agent is the registered one, its host is disconnected and no other is.
pub get-remove :
    (s : Session) (r : Registry) (h : String)
    → get h (remove s r)
      ≡ (if is_agent (get s.host_id r) s && s.host_id == h then none else get h r)
unfolding remove get
get-remove s r h = ground (arith, lookup-erase s.host_id h r.by_host)

-- When an agent reconnects, its new session is registered before the old one is removed. The removal
-- compares agent ids, not sessions, so it takes the new session out, and the registry has none
-- for the host although its agent is connected.
pub remove-register_reconnect :
    (old new : Session) (r : Registry)
    → new.host_id ≡ old.host_id
    → new.agent_id ≡ old.agent_id
    → (get new.host_id (register new r).0 ≡ some new)
      × (get new.host_id (remove old (register new r).0) ≡ none)
unfolding register remove get
remove-register_reconnect old new r same_host same_agent = (
  simp (lookup-insert, eq_refl),
  ground (
    arith,
    lookup-insert new.host_id old.host_id new r.by_host,
    lookup-erase old.host_id new.host_id (insert new.host_id new r.by_host),
    eq_iff new.host_id old.host_id,
    eq_iff old.host_id new.host_id,
    eq_iff new.agent_id old.agent_id,
  ),
)
