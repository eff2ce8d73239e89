-- ===== src/Ports/Free.antt =====
-- services/port_preflight.py: `find_free_port_set`, with the ports as natural numbers.
use tantor_v.Prelude.{
  ℕ, zero, suc, ◌+◌, ◌*◌, ◌<◌, String, ◌≡◌, refl, ◌⊎◌, inl, inr, Bool, true, false, ◌||◌, Option,
  none, some, List, [], ◌∷◌, ◌++◌, any, eqb, arith,
}
use tantor_v.Prelude.Dict.{Dict, lookup}

pub record PortSet : Type 0 where
  pub listener_port : ℕ
  pub controller_port : ℕ
  pub ssl_listener_port : ℕ

abbrev pub at_offset : ℕ → PortSet
at_offset offset = record {
  listener_port = 9092 + offset;
  controller_port = 9093 + offset;
  ssl_listener_port = 9096 + offset;
}

abbrev pub ports_of : Option (List ℕ) → List ℕ
ports_of none = []
ports_of (some ports) = ports

-- The union of the ports of the hosts.
unfoldable pub used_ports : Dict (List ℕ) → List String → List ℕ
used_ports occupied [] = []
used_ports occupied (h ∷ rest) = ports_of (lookup h occupied) ++ used_ports occupied rest

abbrev pub is_used : List ℕ → ℕ → Bool
is_used used port = any (λ q. eqb q port) used

-- `any(p in used for p in cand.values())`
unfoldable pub clashes : List ℕ → PortSet → Bool
clashes used c =
    is_used used c.listener_port
    || is_used used c.controller_port
    || is_used used c.ssl_listener_port

-- `for offset in range(0, 1000, 100)`, from an offset on with the rounds that are left.
unfoldable pub first_free : List ℕ → ℕ → ℕ → PortSet
first_free used zero offset = at_offset 0
first_free used (suc rounds) offset = elim (clashes used (at_offset offset)) [
  | true ↦ first_free used rounds (offset + 100)
  | false ↦ at_offset offset
]

unfoldable pub find_free_port_set : Dict (List ℕ) → List String → PortSet
unfolding used_ports first_free
find_free_port_set occupied host_ids = first_free (used_ports occupied host_ids) 10 0

-- The `k`-th candidate from the offset on is the first that does not clash.
pub record IsFirstFree (used : List ℕ) (rounds offset : ℕ) (c : PortSet) : Type 0 where
  pub index : ℕ
  pub within : index < rounds
  pub chosen : c ≡ at_offset (offset + 100 * index)
  pub free : clashes used c ≡ false
  pub earlier : (j : ℕ) → j < index → clashes used (at_offset (offset + 100 * j)) ≡ true

-- All candidates clash, and the defaults are taken.
pub record AllClash (used : List ℕ) (rounds offset : ℕ) (c : PortSet) : Type 0 where
  pub defaults : c ≡ at_offset 0
  pub every : (j : ℕ) → j < rounds → clashes used (at_offset (offset + 100 * j)) ≡ true

step_offset : (offset j : ℕ) → offset + 100 + 100 * j ≡ offset + 100 * suc j
step_offset offset j = omega arith

clash_before :
    (used : List ℕ) (offset bound : ℕ)
    → clashes used (at_offset offset) ≡ true
    → ((j : ℕ) → j < bound → clashes used (at_offset (offset + 100 + 100 * j)) ≡ true)
    → (j : ℕ) → j < suc bound
    → clashes used (at_offset (offset + 100 * j)) ≡ true
clash_before used offset bound first later zero h =
    let e : offset + 100 * 0 ≡ offset = omega arith in rw e first
clash_before used offset bound first later (suc j) h =
    rw (← step_offset offset j) (later j (omega arith))

first_free_lem :
    (used : List ℕ) (rounds offset : ℕ)
    → IsFirstFree used rounds offset (first_free used rounds offset)
      ⊎ AllClash used rounds offset (first_free used rounds offset)
unfolding first_free
first_free_lem used zero offset = inr (record { defaults = refl; every = λ j h. elim h [ ] })
first_free_lem used (suc rounds) offset =
    choose (clashes used (at_offset offset)) refl (first_free_lem used rounds (offset + 100))
  where
    move :
        clashes used (at_offset offset) ≡ true
        → IsFirstFree used rounds (offset + 100) (first_free used rounds (offset + 100))
          ⊎ AllClash used rounds (offset + 100) (first_free used rounds (offset + 100))
        → IsFirstFree used (suc rounds) offset (first_free used rounds (offset + 100))
          ⊎ AllClash used (suc rounds) offset (first_free used rounds (offset + 100))
    move e (inl f) = inl (record {
      index = suc f.index;
      within = omega (arith, f.within);
      chosen = rw (← step_offset offset f.index) f.chosen;
      free = f.free;
      earlier = clash_before used offset f.index e f.earlier;
    })
    move e (inr a) =
        inr (record { defaults = a.defaults; every = clash_before used offset rounds e a.every })

    choose :
        (b : Bool)
        → clashes used (at_offset offset) ≡ b
        → IsFirstFree used rounds (offset + 100) (first_free used rounds (offset + 100))
          ⊎ AllClash used rounds (offset + 100) (first_free used rounds (offset + 100))
        → IsFirstFree used
            (suc rounds)
            offset
            (elim b [ true ↦ first_free used rounds (offset + 100) | false ↦ at_offset offset ])
          ⊎ AllClash used
              (suc rounds)
              offset
              (elim b [ true ↦ first_free used rounds (offset + 100) | false ↦ at_offset offset ])
    choose true e h = move e h
    choose false e h = inl (record {
      index = 0;
      within = omega arith;
      chosen = (let z : offset + 100 * 0 ≡ offset = omega arith in rw z refl);
      free = e;
      earlier = λ j p. elim p [ ];
    })

-- The chosen ports are those of the first of the ten candidates (9092, 9093, 9096), (9192, 9193,
-- 9196), … none of whose ports is in use on any of the hosts; if there is none, every candidate
-- clashes and the choice is the first one all the same.
pub find_free_port_set-first :
    (occupied : Dict (List ℕ)) (host_ids : List String)
    → IsFirstFree (used_ports occupied host_ids) 10 0 (find_free_port_set occupied host_ids)
      ⊎ AllClash (used_ports occupied host_ids) 10 0 (find_free_port_set occupied host_ids)
unfolding find_free_port_set
find_free_port_set-first occupied host_ids = first_free_lem (used_ports occupied host_ids) 10 0
