-- ===== src/Agents/Tokens/Admitted.antt =====
-- api/agents.py: whom `_authenticate` lets in, and whom not any more after a token was used, minted
-- or revoked.
use tantor_v.Prelude.{
  ℕ, String, ◌≡◌, refl, sym, inl, inr, Bool, true, false, not, ◌&&◌, none, some, List, [], ◌∷◌,
  ◌==◌, eqb, arith, All, Bool-cases, Option-cases, filter,
}
use tantor_v.Auth.Admission.{some-injective}
use tantor_v.Models.{Host, or_text}
use tantor_v.Auth.Access.{Payload, Decoded, claims, expired, invalid, or_zero}
use tantor_v.Agents.Tokens.Defs.{
  Agent, Crypto, looks_like_reg_token, agent_of_host, find_agent, is_pending, candidates, accepts,
  with_host, has_host, first_accepted, agent_of_claims, authenticate, decode_agent_jwt,
}

apart_some : (a : Agent) → none ≡ some a → ⊥
apart_some a e = ground arith

module _ (Q : Agent → Type 0) where
  agent_of_host-All :
      (host_id : String) (agents : List Agent) (a : Agent)
      → All Q agents
      → agent_of_host host_id agents ≡ some a
      → Q a
  agent_of_host-All host_id [] a h e = absurd (apart_some a e)
  agent_of_host-All host_id (b ∷ rest) a h e = elim (Bool-cases (b.host_id == host_id)) [
    | inl this ↦ rw (some-injective (rw this at e)) at h.0
    | inr other ↦ agent_of_host-All host_id rest a h.1 (rw other at e)
  ]

  find_agent-All :
      (id : String) (agents : List Agent) (a : Agent)
      → All Q agents
      → find_agent id agents ≡ some a
      → Q a
  find_agent-All id [] a h e = absurd (apart_some a e)
  find_agent-All id (b ∷ rest) a h e = elim (Bool-cases (b.id == id)) [
    | inl this ↦ rw (some-injective (rw this at e)) at h.0
    | inr other ↦ find_agent-All id rest a h.1 (rw other at e)
  ]

  filter-All : (p : Agent → Bool) (agents : List Agent) → All Q agents → All Q (filter p agents)
  filter-All p [] h = tt
  filter-All p (a ∷ rest) h = elim (Bool-cases (p a)) [
    | inl holds ↦ rw holds (h.0, filter-All p rest h.1)
    | inr fails ↦ rw fails (filter-All p rest h.1)
  ]

  candidates-All :
      (hint : String) (agents : List Agent) → All Q agents → All Q (candidates hint agents)
  candidates-All hint agents h = elim (Bool-cases (hint == "")) [
    | inl blank ↦ rw blank (filter-All is_pending agents h)
    | inr named ↦ rw named (elim (Option-cases (agent_of_host hint agents)) [
      | inl missing ↦ rw missing tt
      | inr (a, found) ↦ rw found (agent_of_host-All hint agents a h found, tt)
    ])
  ]

-- How a token let an agent in: by the hash of a registration token, or by the claims of a JWT.
pub data Admitted (crypto : Crypto) (now : ℕ) (token : String) (agent : Agent) : Type 0 where
  by_token :
      looks_like_reg_token token ≡ true
      → accepts crypto now token agent ≡ true
      → Admitted crypto now token agent
  by_jwt :
      (p : Payload)
      → looks_like_reg_token token ≡ false
      → decode_agent_jwt crypto token ≡ claims p
      → agent.is_active ≡ true
      → or_zero p.tv ≡ or_zero agent.token_version
      → Admitted crypto now token agent

module _ (crypto : Crypto) (hosts : List Host) (Q : Agent → Type 0) where
  -- The agent that comes out is the one that went in.
  with_host_same : (a b : Agent) → with_host hosts a ≡ some b → a ≡ b
  with_host_same a b e = elim (Bool-cases (has_host a.host_id hosts)) [
    | inl known ↦ some-injective (rw known at e)
    | inr unknown ↦ absurd (apart_some b (rw unknown at e))
  ]

  first_accepted-All :
      (now : ℕ) (token : String) (agents : List Agent) (b : Agent)
      → All Q agents
      → first_accepted crypto hosts now token agents ≡ some b
      → Q b × (accepts crypto now token b ≡ true)
  unfolding first_accepted
  first_accepted-All now token [] b h e = absurd (apart_some b e)
  first_accepted-All now token (a ∷ rest) b h e = elim (Bool-cases (accepts crypto now token a)) [
    | inl holds ↦
        let same : a ≡ b = with_host_same a b (rw (first_accepted, holds) at e) in
        rw (sym same) (h.0, holds)
    | inr fails ↦ first_accepted-All now token rest b h.1 (rw (first_accepted, fails) at e)
  ]

  agent_of_claims-All :
      (now : ℕ) (token : String) (agents : List Agent) (p : Payload) (b : Agent)
      → looks_like_reg_token token ≡ false
      → decode_agent_jwt crypto token ≡ claims p
      → All Q agents
      → agent_of_claims crypto hosts agents p ≡ some b
      → Q b × Admitted crypto now token b
  unfolding agent_of_claims
  agent_of_claims-All now token agents p b jwt decoded h e =
      elim (Option-cases (find_agent (or_text p.sub "") agents)) [
        | inl missing ↦ absurd (apart_some b (rw (agent_of_claims, missing) at e))
        | inr (a, found) ↦
            elim (Bool-cases (
              not (or_text p.sub "" == "")
              && (a.is_active && eqb (or_zero p.tv) (or_zero a.token_version)))) [
                | inl holds ↦
                    let same : a ≡ b =
                      with_host_same a b (rw (agent_of_claims, found, holds) at e) in
                    let q : Q a = find_agent-All Q _ agents a h found in
                    let active : a.is_active ≡ true = ground (arith, holds) in
                    let current : or_zero p.tv ≡ or_zero a.token_version = ground (arith, holds) in
                    rw (sym same) (q, by_jwt p jwt decoded active current)
                | inr fails ↦ absurd (apart_some b (rw (agent_of_claims, found, fails) at e))
              ]
      ]

  -- Whom `_authenticate` lets in, among rows that are all as `Q` says.
  pub authenticate-All :
      (now : ℕ) (token hint : String) (agents : List Agent) (b : Agent)
      → All Q agents
      → authenticate crypto hosts now token hint agents ≡ some b
      → Q b × Admitted crypto now token b
  unfolding authenticate
  authenticate-All now token hint agents b h e = elim (Bool-cases (looks_like_reg_token token)) [
    | inl reg ↦
        let r =
          first_accepted-All now token (candidates hint agents) b (candidates-All Q hint agents h)
            (rw (authenticate, reg) at e) in
        (r.0, by_token reg r.1)
    | inr jwt ↦ decoded jwt (decode_agent_jwt crypto token) refl (rw (authenticate, jwt) at e)
  ]
    where
      decoded :
          looks_like_reg_token token ≡ false
          → (d : Decoded) → decode_agent_jwt crypto token ≡ d
          → (elim d [
            | claims p ↦ agent_of_claims crypto hosts agents p
            | expired ↦ none
            | invalid ↦ none
          ])
            ≡ some b
          → Q b × Admitted crypto now token b
      decoded jwt (claims p) is e' = agent_of_claims-All now token agents p b jwt is h e'
      decoded jwt expired is e' = absurd (apart_some b e')
      decoded jwt invalid is e' = absurd (apart_some b e')
