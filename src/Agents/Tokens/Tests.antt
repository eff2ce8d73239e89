-- ===== src/Agents/Tokens/Tests.antt =====
-- Tokens of agents, and the theorems at concrete inputs.
use tantor_v.Prelude.{String, ◌≡◌, ◌≢◌, refl, true, Option, none, some, List, [], ◌∷◌, ◌==◌, arith}
use tantor_v.Prelude.Exec.{ok}
use tantor_v.Prelude.Text.{strip_prefix}
use tantor_v.Models.{Host}
use tantor_v.Auth.Access.{Payload, claims}
use tantor_v.Agents.Registry.{empty}
use tantor_v.Agents.Tokens.Defs.{
  Agent, Crypto, issue_agent_jwt, looks_like_reg_token, decode_agent_jwt, verify_registration_token,
  accepts, first_accepted, authenticate, agent_of_claims, revoke_agent, mint_token,
}
use tantor_v.Agents.Tokens.Connect.{Hello, Panel, registered, welcome}
use tantor_v.Agents.Tokens.Later.{
  jwt_of, authenticate-revoke_agent, authenticate-mint_token, authenticate-welcome,
  authenticate-issue_agent_jwt,
}

-- One JWT per agent: its text names the agent and its version is 1.
abbrev own : String → Payload
own id = record { kind = some "agent"; sub = some id; tv = some 1 }

-- The hash of a token is the token itself.
abbrev plain : Crypto
plain = record { checkpw = λ p h. ok (p == h); encode = λ q. "jwt"; decode = λ t. claims (own t) }

abbrev machine : String → Host
machine id = record { id = id; hostname = id; ip_address = "10.0.0.1" }

abbrev agent : String → String → Option String → Agent
agent id host_id hash = record {
  id = id;
  host_id = host_id;
  registration_token_hash = hash;
  registration_token_expires_at = none;
  token_version = some 1;
  agent_version = none;
  os_family = none;
  os_version = none;
  kernel = none;
  is_active = true;
  last_registered_at = none;
  last_heartbeat_at = none;
}

abbrev hosts : List Host
hosts = machine "h1" ∷ machine "h2" ∷ []

abbrev agents : List Agent
agents = agent "a1" "h1" none ∷ agent "a2" "h2" (some "tat_2") ∷ []

authenticate-revoke_agent_example : ◌≢◌ {A = String} "a2" "a1"
unfolding revoke_agent authenticate looks_like_reg_token strip_prefix decode_agent_jwt
    agent_of_claims
authenticate-revoke_agent_example =
    authenticate-revoke_agent plain hosts 0 "a2" "" "h1" agents _ (agent "a1" "h1" none)
      (agent "a2" "h2" (some "tat_2")) refl refl refl

authenticate-mint_token_example : ◌≢◌ {A = String} "a2" "a1"
unfolding mint_token authenticate looks_like_reg_token strip_prefix decode_agent_jwt agent_of_claims
authenticate-mint_token_example =
    authenticate-mint_token plain hosts 0 "a2" "" "n" "r" "tat_1" "h1" _ 5 agents _
      (agent "a1" "h1" none) (agent "a2" "h2" (some "tat_2")) (own "a2") refl refl refl refl
      (omega arith) refl

abbrev arrival : Hello
arrival = record {
  kind = some "register";
  version = some 1;
  host_id_hint = some "h1";
  agent_version = some "1.0";
  os_family = none;
  os_version = none;
  kernel = none;
}

abbrev pending : List Agent
pending = agent "a1" "h1" (some "tat_1") ∷ agent "a2" "h2" (some "tat_2") ∷ []

abbrev panel : Panel
panel = record { agents = pending; registry = empty }

abbrev met : Agent
met = agent "a1" "h1" (some "tat_1")

authenticate-welcome_example : ◌≢◌ {A = String} "a2" "a1"
unfolding welcome authenticate looks_like_reg_token strip_prefix first_accepted accepts
    verify_registration_token
authenticate-welcome_example =
    authenticate-welcome plain hosts 9 "tat_2" "" "w" arrival 5 (agent "a1" "h1" (some "tat_1"))
      (agent "a2" "h2" (some "tat_2")) panel refl refl

-- One JWT, with the claims of one agent.
abbrev single : Crypto
single = record plain { decode = λ t. claims (own "a1") }

authenticate-issue_agent_jwt_example :
    authenticate single hosts 9
      (jwt_of (welcome single hosts 5 "w" arrival met panel).0)
      ""
      (welcome single hosts 5 "w" arrival met panel).1.agents
    ≡ some (registered 5 arrival met)
unfolding issue_agent_jwt looks_like_reg_token strip_prefix
authenticate-issue_agent_jwt_example =
    authenticate-issue_agent_jwt single hosts 5 9 "w" "" arrival met panel refl refl refl refl refl
      refl
