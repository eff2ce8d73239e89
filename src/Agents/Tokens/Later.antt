-- ===== src/Agents/Tokens/Later.antt =====
-- api/agents.py: what a token is worth after the agent has connected, after another token was
-- minted, and after the agent was revoked.
use tantor_v.Prelude.{
  ℕ, ◌+◌, ◌≤◌, String, ◌≡◌, ◌≢◌, refl, ap, sym, ◌∙◌, inl, inr, ◌⊎◌, Bool, true, false, not, ◌&&◌,
  none, some, List, [], ◌∷◌, ◌==◌, eq_iff, eq_refl, eqb, eqb_iff, arith, All, Bool-cases,
}
use tantor_v.Auth.Admission.{granted-injective, claims-injective}
use tantor_v.Models.{Host, or_text}
use tantor_v.Auth.Access.{Payload, claims, granted, denied, or_zero}
use tantor_v.Agents.Tokens.Defs.{
  Agent, Crypto, looks_like_reg_token, agent_payload, issue_agent_jwt, decode_agent_jwt,
  agent_of_host, find_agent, put_agent, has_host, minted, mint_token, revoked, revoke_agent,
  accepts, agent_of_claims, authenticate,
}
use tantor_v.Agents.Tokens.Admitted.{Admitted, by_token, by_jwt, authenticate-All}
use tantor_v.Agents.Tokens.Connect.{
  Hello, Handshake, gone, refused, accepted, Panel, registered, welcome,
}

-- A row with another id, or one as `P` says.
abbrev Else : (Agent → Type 0) → String → Agent → Type 0
Else P id a = (a.id ≢ id) ⊎ P a

put_agent-Else :
    (P : Agent → Type 0) (changed : Agent) (agents : List Agent)
    → P changed
    → All (Else P changed.id) (put_agent changed agents)
put_agent-Else P changed [] h = tt
put_agent-Else P changed (a ∷ rest) h = (
  elim (Bool-cases (a.id == changed.id)) [
    | inl same ↦ rw same (inr h)
    | inr other ↦ rw other (inl (apart (eq_iff a.id changed.id).1 other))
  ],
  put_agent-Else P changed rest h,
)
  where
    apart : {b : Bool} → (a.id ≡ changed.id → b ≡ true) → b ≡ false → a.id ≢ changed.id
    apart f e s = ground (arith, f s)

-- A row that nothing lets in is not the one that came in.
Else-apart : (P : Agent → Type 0) (id : String) (b : Agent) → Else P id b → (P b → ⊥) → b.id ≢ id
Else-apart P id b (inl apart) no_way = apart
Else-apart P id b (inr h) no_way = absurd (no_way h)

module _ (crypto : Crypto) (now : ℕ) (token : String) (b : Agent) where
  -- Without a hash there is no way in by a registration token.
  accepts-hash : b.registration_token_hash ≡ none → accepts crypto now token b ≡ true → ⊥
  unfolding accepts
  accepts-hash unset holds =
      let shut : false ≡ true = rw (accepts, unset) at holds in ground (arith, shut)

  Admitted-shut :
      (b.is_active ≡ false) × (b.registration_token_hash ≡ none) → Admitted crypto now token b → ⊥
  Admitted-shut h (by_token reg holds) = accepts-hash h.1 holds
  Admitted-shut h (by_jwt p jwt decoded active current) = ground (arith, h.0, active)

  -- A token of an earlier version is no way in for a JWT.
  Admitted-newer :
      (p : Payload) (version : ℕ)
      → looks_like_reg_token token ≡ false
      → decode_agent_jwt crypto token ≡ claims p
      → or_zero p.tv ≤ version
      → or_zero b.token_version ≡ version + 1
      → Admitted crypto now token b
      → ⊥
  Admitted-newer p version jwt decoded old newer (by_token reg holds) = ground (arith, jwt, reg)
  Admitted-newer p version jwt decoded old newer (by_jwt q _ decoded' active current) =
      let same : p ≡ q = claims-injective (sym decoded ∙ decoded') in
      let current' : or_zero p.tv ≡ or_zero b.token_version = rw same current in
      omega (arith, old, newer, current')

not_granted : {A : Type 0} (code : ℕ) (why : String) (x : A) → denied code why ≡ granted x → ⊥
not_granted code why x e = ground arith

module _ (crypto : Crypto) (hosts : List Host) (now : ℕ) (token hint : String) where
  -- After an agent was revoked no token at all lets it in, whether it is a registration token or a
  -- JWT, while nothing else is written to its row.
  pub authenticate-revoke_agent :
      (host_id : String) (agents agents' : List Agent) (a b : Agent)
      → agent_of_host host_id agents ≡ some a
      → revoke_agent host_id agents ≡ granted agents'
      → authenticate crypto hosts now token hint agents' ≡ some b
      → b.id ≢ a.id
  unfolding revoke_agent
  authenticate-revoke_agent host_id agents agents' a b found revoke e =
      let Shut : Agent → Type 0 = λ c. (c.is_active ≡ false) × (c.registration_token_hash ≡ none) in
      let written : put_agent (revoked a) agents ≡ agents' =
        granted-injective (rw (revoke_agent, found) at revoke) in
      let rows : All (Else Shut a.id) agents' =
        rw written at (put_agent-Else Shut (revoked a) agents (refl, refl)) in
      let r = authenticate-All crypto hosts (Else Shut a.id) now token hint agents' b rows e in
      Else-apart Shut a.id b r.0 (λ h. Admitted-shut crypto now token b h r.1)

  -- After a registration token was minted for a host, no JWT that carries at most the version that
  -- the agent's row had lets that agent in.
  pub authenticate-mint_token :
      (new_id random hashed host_id plaintext : String) (minted_at : ℕ)
      (agents agents' : List Agent) (a b : Agent) (p : Payload)
      → agent_of_host host_id agents ≡ some a
      → mint_token new_id random hashed minted_at host_id hosts agents
        ≡ granted (plaintext, agents')
      → looks_like_reg_token token ≡ false
      → decode_agent_jwt crypto token ≡ claims p
      → or_zero p.tv ≤ or_zero a.token_version
      → authenticate crypto hosts now token hint agents' ≡ some b
      → b.id ≢ a.id
  unfolding mint_token
  authenticate-mint_token new_id random hashed host_id plaintext minted_at agents agents' a b p
        found mint jwt decoded old e =
      let Newer : Agent → Type 0 = λ c. or_zero c.token_version ≡ or_zero a.token_version + 1 in
      let written : put_agent (minted hashed minted_at a) agents ≡ agents' =
        elim (Bool-cases (has_host host_id hosts)) [
          | inl known ↦ ap (λ x. x.1) (granted-injective (rw (mint_token, known, found) at mint))
          | inr unknown ↦ absurd (not_granted _ _ _ (rw (mint_token, unknown) at mint))
        ] in
      let rows : All (Else Newer a.id) agents' =
        rw written at (put_agent-Else Newer (minted hashed minted_at a) agents refl) in
      let r = authenticate-All crypto hosts (Else Newer a.id) now token hint agents' b rows e in
      Else-apart Newer a.id b r.0
        (λ h. Admitted-newer crypto now token b p (or_zero a.token_version) jwt decoded old h r.1)

  -- Once an agent has connected, by whatever token, no registration token lets it in again, with or
  -- without a hint, until another one is minted.
  pub authenticate-welcome :
      (ws : String) (h : Hello) (met : ℕ) (a b : Agent) (p : Panel)
      → looks_like_reg_token token ≡ true
      → authenticate crypto hosts now token hint (welcome crypto hosts met ws h a p).1.agents
        ≡ some b
      → b.id ≢ a.id
  unfolding welcome
  authenticate-welcome ws h met a b p reg e =
      let Spent : Agent → Type 0 = λ c. c.registration_token_hash ≡ none in
      let rows = put_agent-Else Spent (registered met h a) p.agents refl in
      let r = authenticate-All crypto hosts (Else Spent a.id) now token hint _ b rows e in
      Else-apart Spent a.id b r.0 (λ s. spent s r.1)
    where
      spent : b.registration_token_hash ≡ none → Admitted crypto now token b → ⊥
      spent s (by_token _ holds) = accepts-hash crypto now token b s holds
      spent s (by_jwt q jwt decoded active current) = ground (arith, reg, jwt)

-- The JWT of a handshake that was accepted.
abbrev pub jwt_of : Handshake → String
jwt_of gone = ""
jwt_of (refused code) = ""
jwt_of (accepted jwt previous) = jwt

find_agent-put_agent :
    (changed : Agent) (agents : List Agent) (a : Agent)
    → find_agent changed.id agents ≡ some a
    → find_agent changed.id (put_agent changed agents) ≡ some changed
find_agent-put_agent changed [] a e = ground arith
find_agent-put_agent changed (b ∷ rest) a e =
    ground (arith, eq_iff b.id changed.id, eq_refl changed.id, find_agent-put_agent changed rest a)

-- The claims that are issued for a row let it in.
agent_of_claims-own :
    (crypto : Crypto) (hosts : List Host) (agents : List Agent) (c : Agent)
    → find_agent c.id agents ≡ some c
    → c.is_active ≡ true
    → (c.id == "") ≡ false
    → has_host c.host_id hosts ≡ true
    → agent_of_claims crypto hosts agents (agent_payload c.id (or_zero c.token_version)) ≡ some c
unfolding agent_of_claims
agent_of_claims-own crypto hosts agents c found active named known =
    let same : or_text (some c.id) "" ≡ c.id = rw named refl in
    let found' : find_agent (or_text (some c.id) "") agents ≡ some c = rw same found in
    let n = or_zero c.token_version in
    let current : eqb n n ≡ true = (eqb_iff n n).1 refl in
    let gate : (not (or_text (some c.id) "" == "") && (c.is_active && eqb n n)) ≡ true =
      rw (same, named, active, current) refl in
    rw (agent_of_claims, found', gate, known) refl

-- Let jwt.decode give back the claims of the JWT that is issued, and let that JWT not begin like a
-- registration token. The JWT that an active agent with a row and a host gets when it connects lets
-- it in the next time, as the row that the first connection has written.
pub authenticate-issue_agent_jwt :
    (crypto : Crypto) (hosts : List Host) (met now : ℕ) (ws hint : String) (h : Hello) (a : Agent)
    (p : Panel)
    → crypto.decode (issue_agent_jwt crypto a.id (or_zero a.token_version))
      ≡ claims (agent_payload a.id (or_zero a.token_version))
    → looks_like_reg_token (issue_agent_jwt crypto a.id (or_zero a.token_version)) ≡ false
    → find_agent a.id p.agents ≡ some a
    → a.is_active ≡ true
    → (a.id == "") ≡ false
    → has_host a.host_id hosts ≡ true
    → authenticate crypto hosts now
        (jwt_of (welcome crypto hosts met ws h a p).0)
        hint
        (welcome crypto hosts met ws h a p).1.agents
      ≡ some (registered met h a)
unfolding welcome authenticate decode_agent_jwt
authenticate-issue_agent_jwt crypto hosts met now ws hint h a p decodes differs found active named
      known =
    let row = find_agent-put_agent (registered met h a) p.agents a found in
    rw (differs, decodes)
      (agent_of_claims-own crypto hosts _ (registered met h a) row active named known)
