-- ===== src/Agents/Tokens/Connect.antt =====
-- api/agents.py: `agent_ws` up to its receive loop, and `_persist_heartbeat`.
use tantor_v.Prelude.{
  ℕ, String, Bool, false, ◌&&◌, eqb, Option, none, some, List, ◌==◌, if◌then◌else◌,
}
use tantor_v.Prelude.Text.{lower, strip, strip_prefix, take_text, drop_text}
use tantor_v.Models.{Host, or_text}
use tantor_v.Auth.Access.{or_zero}
use tantor_v.Agents.Registry.{Session, Registry, register, remove_for_session_if_present}
use tantor_v.Agents.Tokens.Defs.{
  Agent, Crypto, issue_agent_jwt, find_agent, put_agent, authenticate,
}

abbrev protocol_version : ℕ
protocol_version = 1

-- `_extract_bearer`, on the header "authorization".
unfoldable pub extract_bearer : Option String → Option String
extract_bearer none = none
extract_bearer (some auth) =
    if auth == "" then none else (elim (strip_prefix "bearer " (lower auth)) [
      | none ↦ none
      | some rest ↦ some (strip (drop_text 7 auth))
    ])

-- The first frame, with the texts of its payload that are read.
pub record Hello : Type 0 where
  pub kind : Option String
  pub version : Option ℕ
  pub host_id_hint : Option String
  pub agent_version : Option String
  pub os_family : Option String
  pub os_version : Option String
  pub kernel : Option String

-- What `ws.receive_text()` and `json.loads` give.
pub data First : Type 0 where
  disconnected malformed : First
  hello : Hello → First

-- The handshake ends without a word, or with an error code and a close, or with a JWT and the
-- session that the new one replaces.
pub data Handshake : Type 0 where
  gone : Handshake
  refused : Option String → Handshake
  accepted : String → Option Session → Handshake

pub record Panel : Type 0 where
  pub agents : List Agent
  pub registry : Registry

-- `(value or "")[:limit] or None`
abbrev clip : ℕ → Option String → Option String
clip limit value = let s = take_text limit (or_text value "") in if s == "" then none else some s

-- What a connection writes to the agent's row.
abbrev pub registered : ℕ → Hello → Agent → Agent
registered now h agent = record agent {
  agent_version = clip 64 h.agent_version;
  os_family = clip 64 h.os_family;
  os_version = clip 64 h.os_version;
  kernel = clip 255 h.kernel;
  last_registered_at = some now;
  registration_token_hash = none;
  registration_token_expires_at = none;
}

abbrev is_register : Hello → Bool
is_register h = elim h.kind [
  | none ↦ false
  | some kind ↦ elim h.version [
    | none ↦ false
    | some version ↦ kind == "register" && eqb version protocol_version
  ]
]

module _ (crypto : Crypto) (hosts : List Host) (now : ℕ) (ws : String) where
  -- `finally`, for a connection that does not reach the receive loop.
  abbrev dropped : Panel → Panel
  dropped p = record p { registry = remove_for_session_if_present ws p.registry }

  -- From a known agent to the receive loop.
  unfoldable pub welcome : Hello → Agent → Panel → Handshake × Panel
  welcome h agent p =
      let session : Session = record {
        agent_id = agent.id;
        host_id = agent.host_id;
        websocket = ws;
      } in
      let (registry, previous) = register session p.registry in
      (
        accepted (issue_agent_jwt crypto agent.id (or_zero agent.token_version)) previous,
        record { agents = put_agent (registered now h agent) p.agents; registry = registry },
      )

  unfoldable pub greet : String → First → Panel → Handshake × Panel
  greet token disconnected p = (gone, dropped p)
  greet token malformed p = (refused (some "bad_args"), dropped p)
  greet token (hello h) p =
      if is_register h
      then (elim (authenticate crypto hosts now token (or_text h.host_id_hint "") p.agents) [
        | none ↦ (refused (some "auth_failed"), dropped p)
        | some agent ↦ welcome h agent p
      ])
      else (refused (some "version_mismatch"), dropped p)

  -- `agent_ws` up to the receive loop.
  unfoldable pub agent_ws : Option String → First → Panel → Handshake × Panel
  agent_ws header first p =
      let token = or_text (extract_bearer header) "" in
      if token == "" then (refused none, p) else greet token first p

-- `_persist_heartbeat`
unfoldable pub persist_heartbeat : ℕ → Session → List Agent → List Agent
persist_heartbeat now session agents = elim (find_agent session.agent_id agents) [
  | none ↦ agents
  | some agent ↦ put_agent (record agent { last_heartbeat_at = some now }) agents
]
