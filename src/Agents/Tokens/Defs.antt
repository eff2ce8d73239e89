-- ===== src/Agents/Tokens/Defs.antt =====
-- services/agent_auth.py, and `mint_token`, `revoke_agent` and `_authenticate` of api/agents.py. The
-- libraries bcrypt and jwt are parameters.
use tantor_v.Prelude.{
  ℕ, ◌+◌, String, Bool, true, false, not, ◌&&◌, Option, none, some, List, [], ◌∷◌, ◌++◌, ◌==◌, eqb,
  ltb, filter, if◌then◌else◌,
}
use Prim.Native.Char.{code}
use tantor_v.Prelude.Text.{concat, take_text, strip_prefix}
use tantor_v.Prelude.Exec.{Result, ok, raised}
use tantor_v.Models.{Host, or_text}
use tantor_v.Auth.Access.{
  Payload, Decoded, claims, expired, invalid, Answer, granted, denied, has_kind, or_zero,
}

-- A row of "agents", with times in seconds; its features and the time of its creation are left out.
pub record Agent : Type 0 where
  pub id : String
  pub host_id : String
  pub registration_token_hash : Option String
  pub registration_token_expires_at : Option ℕ
  pub token_version : Option ℕ
  pub agent_version : Option String
  pub os_family : Option String
  pub os_version : Option String
  pub kernel : Option String
  pub is_active : Bool
  pub last_registered_at : Option ℕ
  pub last_heartbeat_at : Option ℕ

-- `bcrypt.checkpw`, which raises on a malformed hash; `jwt.encode` and `jwt.decode`, which look
-- after the expiry themselves.
pub record Crypto : Type 0 where
  pub checkpw : String → String → Result Bool
  pub encode : Payload → String
  pub decode : String → Decoded

abbrev pub reg_token_prefix : String
reg_token_prefix = "tat_"

-- `looks_like_reg_token`
unfoldable pub looks_like_reg_token : String → Bool
looks_like_reg_token value = elim (strip_prefix reg_token_prefix value) [
  | none ↦ false
  | some rest ↦ true
]

-- `verify_registration_token`
unfoldable pub verify_registration_token : Crypto → String → String → Bool
verify_registration_token crypto plaintext hashed = elim (crypto.checkpw plaintext hashed) [
  | ok matches ↦ matches
  | raised e ↦ false
]

abbrev pub agent_payload : String → ℕ → Payload
agent_payload agent_id token_version = record {
  kind = some "agent";
  sub = some agent_id;
  tv = some token_version;
}

-- `issue_agent_jwt`
unfoldable pub issue_agent_jwt : Crypto → String → ℕ → String
issue_agent_jwt crypto agent_id token_version = crypto.encode (agent_payload agent_id token_version)

-- `decode_agent_jwt`: another kind of token is an InvalidTokenError.
unfoldable pub decode_agent_jwt : Crypto → String → Decoded
decode_agent_jwt crypto token = elim (crypto.decode token) [
  | claims p ↦ if has_kind "agent" p then claims p else invalid
  | expired ↦ expired
  | invalid ↦ invalid
]

-- `db.query(Agent).filter(…).first()`, by the host and by the id.
abbrev pub agent_of_host : String → List Agent → Option Agent
agent_of_host host_id [] = none
agent_of_host host_id (a ∷ rest) =
    if a.host_id == host_id then some a else agent_of_host host_id rest

abbrev pub find_agent : String → List Agent → Option Agent
find_agent id [] = none
find_agent id (a ∷ rest) = if a.id == id then some a else find_agent id rest

abbrev pub has_host : String → List Host → Bool
has_host id [] = false
has_host id (h ∷ rest) = if h.id == id then true else has_host id rest

-- The row of this id, written back.
abbrev pub put_agent : Agent → List Agent → List Agent
put_agent changed [] = []
put_agent changed (a ∷ rest) = (if a.id == changed.id then changed else a) ∷ put_agent changed rest

-- `host_id.replace("-", "")`
without_dashes : String → String
without_dashes String.[] = ""
without_dashes (String.◌∷◌ c s) =
    let rest = without_dashes s in if eqb (code c) b'-' then rest else String.◌∷◌ c rest

-- The plaintext of `mint_registration_token`, with the random text of `secrets`.
unfoldable pub registration_token : String → String → String
unfolding without_dashes
registration_token host_id random =
    concat (reg_token_prefix ∷ take_text 8 (without_dashes host_id) ∷ "_" ∷ random ∷ [])

-- What `mint_token` writes to a row: the hash, its expiry in an hour, and the next version.
abbrev pub minted : String → ℕ → Agent → Agent
minted hashed now agent = record agent {
  registration_token_hash = some hashed;
  registration_token_expires_at = some (now + 3600);
  is_active = true;
  token_version = some (or_zero agent.token_version + 1);
}

-- `Agent(host_id=host_id)`, before its row is filled in.
abbrev new_agent : String → String → Agent
new_agent id host_id = record {
  id = id;
  host_id = host_id;
  registration_token_hash = none;
  registration_token_expires_at = none;
  token_version = none;
  agent_version = none;
  os_family = none;
  os_version = none;
  kernel = none;
  is_active = true;
  last_registered_at = none;
  last_heartbeat_at = none;
}

-- `mint_token`, with the new row's uuid, the random text and its hash.
unfoldable pub mint_token :
    String → String → String → ℕ → String → List Host → List Agent → Answer (String × List Agent)
mint_token new_id random hashed now host_id hosts agents =
    if has_host host_id hosts
    then (elim (agent_of_host host_id agents) [
      | none ↦ granted (
        registration_token host_id random,
        agents ++ minted hashed now (new_agent new_id host_id) ∷ [],
      )
      | some agent ↦
          granted (registration_token host_id random, put_agent (minted hashed now agent) agents)
    ])
    else denied 404 "Host not found"

-- What `revoke_agent` writes to a row.
abbrev pub revoked : Agent → Agent
revoked agent = record agent {
  is_active = false;
  registration_token_hash = none;
  registration_token_expires_at = none;
  token_version = some (or_zero agent.token_version + 1);
}

-- `revoke_agent`
unfoldable pub revoke_agent : String → List Agent → Answer (List Agent)
revoke_agent host_id agents = elim (agent_of_host host_id agents) [
  | none ↦ denied 404 "No agent for this host"
  | some agent ↦ granted (put_agent (revoked agent) agents)
]

-- `exp is not None and exp < now`
abbrev pub has_lapsed : ℕ → Option ℕ → Bool
has_lapsed now none = false
has_lapsed now (some exp) = ltb exp now

-- `.filter(Agent.registration_token_hash.isnot(None)).filter(Agent.is_active.is_(True))`
abbrev pub is_pending : Agent → Bool
is_pending agent = elim agent.registration_token_hash [ none ↦ false | some h ↦ agent.is_active ]

abbrev pub candidates : String → List Agent → List Agent
candidates host_id_hint agents =
    if host_id_hint == ""
    then filter is_pending agents
    else (elim (agent_of_host host_id_hint agents) [ none ↦ [] | some row ↦ row ∷ [] ])

module _ (crypto : Crypto) where
  -- Whether the loop stops at this candidate.
  unfoldable pub accepts : ℕ → String → Agent → Bool
  accepts now token cand =
      let hash = or_text cand.registration_token_hash "" in
      not (hash == "")
      && not (has_lapsed now cand.registration_token_expires_at)
      && verify_registration_token crypto token hash

abbrev pub with_host : List Host → Agent → Option Agent
with_host hosts agent = if has_host agent.host_id hosts then some agent else none

module _ (crypto : Crypto) (hosts : List Host) where
  -- `for cand in candidates`
  unfoldable pub first_accepted : ℕ → String → List Agent → Option Agent
  first_accepted now token [] = none
  first_accepted now token (cand ∷ rest) =
      let later = first_accepted now token rest in
      if accepts crypto now token cand then with_host hosts cand else later

  -- The row that the claims of an agent JWT name.
  unfoldable pub agent_of_claims : List Agent → Payload → Option Agent
  agent_of_claims agents p =
      let agent_id = or_text p.sub "" in
      elim (find_agent agent_id agents) [
        | none ↦ none
        | some agent ↦
            if not (agent_id == "")
              && (agent.is_active && eqb (or_zero p.tv) (or_zero agent.token_version))
            then with_host hosts agent
            else none
      ]

  -- `_authenticate`: the agent, whose host has a row.
  unfoldable pub authenticate : ℕ → String → String → List Agent → Option Agent
  authenticate now token host_id_hint agents =
      if looks_like_reg_token token
      then first_accepted now token (candidates host_id_hint agents)
      else (elim (decode_agent_jwt crypto token) [
        | claims p ↦ agent_of_claims agents p
        | expired ↦ none
        | invalid ↦ none
      ])
