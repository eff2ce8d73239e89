-- ===== src/Ports/Groups.antt =====
-- The grouping of the checks in `check_ports`: nothing is lost, and each host is asked once.
use mathlib.Core.List.{Perm, perm_middle, append_assoc, append-nil}
use mathlib.Core.List.Perm
use tantor_v.Prelude.{
  String, ◌≡◌, refl, sym, false, List, [], ◌∷◌, ◌++◌, ◌==◌, eq_iff, All, All-append, Bool-cases,
  inl, inr,
}
use tantor_v.Prelude.Dict.{Dict, eq_false_sym}
use tantor_v.Ports.Checks.{PortCheck, add_check, group_onto}

abbrev pub grouped : Dict (List PortCheck) → List PortCheck
grouped [] = []
grouped ((id, cs) ∷ rest) = cs ++ grouped rest

abbrev pub Differs : String → Dict (List PortCheck) → Type 0
Differs id groups = All (λ (g : String × List PortCheck). (g.0 == id) ≡ false) groups

-- Every group holds checks of its own host, and no host has two groups.
abbrev pub IsGrouping : Dict (List PortCheck) → Type 0
IsGrouping [] = Unit
IsGrouping ((id, cs) ∷ rest) =
    All (λ (c : PortCheck). c.host_id ≡ id) cs × Differs id rest × IsGrouping rest

Differs-add_check :
    (id : String) (c : PortCheck) (groups : Dict (List PortCheck))
    → (c.host_id == id) ≡ false
    → Differs id groups
    → Differs id (add_check c groups)
unfolding add_check
Differs-add_check id c [] n h = (n, tt)
Differs-add_check id c ((j, cs) ∷ rest) n h = elim (Bool-cases (j == c.host_id)) [
  | inl same ↦ rw same (h.0, h.1)
  | inr other ↦ rw other (h.0, Differs-add_check id c rest n h.1)
]

add_check-IsGrouping :
    (c : PortCheck) (groups : Dict (List PortCheck))
    → IsGrouping groups
    → IsGrouping (add_check c groups)
unfolding add_check
add_check-IsGrouping c [] h = ((refl, tt), tt, tt)
add_check-IsGrouping c ((j, cs) ∷ rest) h = elim (Bool-cases (j == c.host_id)) [
  | inl same ↦ rw same (
    All-append (λ (d : PortCheck). d.host_id ≡ j) cs (c ∷ []) h.0
        (sym ((eq_iff j c.host_id).0 same), tt),
    h.1,
    h.2,
  )
  | inr differ ↦ rw differ (
    h.0,
    Differs-add_check j c rest (eq_false_sym j c.host_id differ) h.1,
    add_check-IsGrouping c rest h.2,
  )
]

add_check-perm :
    (c : PortCheck) (groups : Dict (List PortCheck))
    → Perm (grouped (add_check c groups)) (c ∷ grouped groups)
unfolding add_check
add_check-perm c [] = Perm.refl (c ∷ [])
add_check-perm c ((j, cs) ∷ rest) = elim (Bool-cases (j == c.host_id)) [
  | inl same ↦ rw (same, append_assoc) (perm_middle cs (grouped rest))
  | inr differ ↦
      rw differ
        (Perm.trans (Perm.append_left cs (add_check-perm c rest)) (perm_middle cs (grouped rest)))
]

group_onto-IsGrouping :
    (groups : Dict (List PortCheck)) (checks : List PortCheck)
    → IsGrouping groups
    → IsGrouping (group_onto groups checks)
unfolding group_onto
group_onto-IsGrouping groups [] h = h
group_onto-IsGrouping groups (c ∷ rest) h =
    group_onto-IsGrouping (add_check c groups) rest (add_check-IsGrouping c groups h)

group_onto-perm :
    (groups : Dict (List PortCheck)) (checks : List PortCheck)
    → Perm (grouped (group_onto groups checks)) (checks ++ grouped groups)
unfolding group_onto
group_onto-perm groups [] = Perm.refl (grouped groups)
group_onto-perm groups (c ∷ rest) = Perm.trans (group_onto-perm (add_check c groups) rest) (
    Perm.trans (Perm.append_left rest (add_check-perm c groups))
      (perm_middle rest (grouped groups)))

-- Grouping the checks by host loses none and invents none, puts every check with those of its host,
-- and makes one group for each host, so that each host is connected to once.
pub group_onto-empty :
    (checks : List PortCheck)
    → IsGrouping (group_onto [] checks) × Perm (grouped (group_onto [] checks)) checks
group_onto-empty checks =
    (group_onto-IsGrouping [] checks tt, rw append-nil at (group_onto-perm [] checks))
