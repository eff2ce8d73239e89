-- ===== src/ClusterPaths/Slugs.antt =====
-- services/cluster_paths.py: what a slug is made of.
use Prim.Native.Char.{Char, code}
use tantor_v.Prelude.{
  ℕ, zero, suc, ◌≤◌, String, ◌≡◌, refl, ◌⊎◌, inl, inr, Bool, true, false, not, ◌&&◌, some, ◌==◌,
  arith, eqb, Bool-cases,
}
use tantor_v.Prelude.Text.{strip, lower, take_text}
use tantor_v.Models.{or_text}
use tantor_v.ClusterPaths.Assign.{
  is_safe, dash, collapse, lstrip_dash, rstrip_dash, cons_unless_dash, slug,
}

-- The number of the characters of a text.
abbrev pub size : String → ℕ
size String.[] = 0
size (String.◌∷◌ c s) = suc (size s)

-- Every character may stand in the name of a file and of a unit.
abbrev pub are_safe : String → Bool
are_safe String.[] = true
are_safe (String.◌∷◌ c s) = is_safe (code c) && are_safe s

size-take_text : (n : ℕ) (s : String) → size (take_text n s) ≤ n
unfolding take_text
size-take_text zero s = omega arith
size-take_text (suc n) String.[] = omega arith
size-take_text (suc n) (String.◌∷◌ c s) = omega (arith, size-take_text n s)

are_safe-take_text : (n : ℕ) (s : String) → are_safe s ≡ true → are_safe (take_text n s) ≡ true
unfolding take_text
are_safe-take_text zero s h = refl
are_safe-take_text (suc n) String.[] h = refl
are_safe-take_text (suc n) (String.◌∷◌ c s) h = ground (arith, are_safe-take_text n s)

are_safe-cons :
    (c : Char) (s : String)
    → is_safe (code c) ≡ true
    → are_safe s ≡ true
    → are_safe (String.◌∷◌ c s) ≡ true
are_safe-cons c s h hs = rw (h, hs) refl

are_safe-collapse : (after : Bool) (s : String) → are_safe (collapse after s) ≡ true
unfolding collapse
are_safe-collapse after String.[] = refl
are_safe-collapse after (String.◌∷◌ c s) =
    pick after (Bool-cases (is_safe (code c) && not (eqb (code c) b'-'))) (are_safe-collapse true s)
      (are_safe-collapse false s)
  where
    pick :
        (after : Bool)
        → ((is_safe (code c) && not (eqb (code c) b'-')) ≡ true)
          ⊎ ((is_safe (code c) && not (eqb (code c) b'-')) ≡ false)
        → are_safe (collapse true s) ≡ true
        → are_safe (collapse false s) ≡ true
        → are_safe (collapse after (String.◌∷◌ c s)) ≡ true
    pick after (inl kept) t f =
        rw (collapse, kept) (are_safe-cons c (collapse false s) (ground (arith, kept)) f)
    pick true (inr dropped) t f = rw (collapse, dropped) t
    pick false (inr dropped) t f =
        rw (collapse, dropped) (are_safe-cons (dash c) (collapse true s) refl t)

are_safe-lstrip_dash : (s : String) → are_safe s ≡ true → are_safe (lstrip_dash s) ≡ true
unfolding lstrip_dash
are_safe-lstrip_dash String.[] h = refl
are_safe-lstrip_dash (String.◌∷◌ c s) h = ground (arith, are_safe-lstrip_dash s)

are_safe-cons_unless_dash :
    (c : Char) (s : String)
    → is_safe (code c) ≡ true
    → are_safe s ≡ true
    → are_safe (cons_unless_dash c s) ≡ true
are_safe-cons_unless_dash c String.[] h hs = elim (Bool-cases (eqb (code c) b'-')) [
  | inl cut ↦ rw cut refl
  | inr kept ↦ rw kept (are_safe-cons c "" h refl)
]
are_safe-cons_unless_dash c (String.◌∷◌ d s) h hs = are_safe-cons c (String.◌∷◌ d s) h hs

are_safe-rstrip_dash : (s : String) → are_safe s ≡ true → are_safe (rstrip_dash s) ≡ true
unfolding rstrip_dash
are_safe-rstrip_dash String.[] h = refl
are_safe-rstrip_dash (String.◌∷◌ c s) h =
    are_safe-cons_unless_dash c (rstrip_dash s) (ground (arith, h))
      (are_safe-rstrip_dash s (ground (arith, h)))

-- The text in front of the last default.
abbrev IsSlug : String → Type 0
IsSlug s = (1 ≤ size s) × (size s ≤ 32) × (are_safe s ≡ true)

or_text-IsSlug :
    (s : String) → size s ≤ 32 → are_safe s ≡ true → IsSlug (or_text (some s) "cluster")
or_text-IsSlug String.[] short safe = (omega arith, omega arith, refl)
or_text-IsSlug (String.◌∷◌ c s) short safe = elim (Bool-cases (String.◌∷◌ c s == "")) [
  | inl blank ↦ rw blank (omega arith, omega arith, refl)
  | inr filled ↦ rw filled (omega arith, short, safe)
]

-- The slug of every name has from 1 to 32 characters, all of them letters or digits of ASCII,
-- underscores or dashes.
pub slug_lem :
    (name : String)
    → (1 ≤ size (slug name)) × (size (slug name) ≤ 32) × (are_safe (slug name) ≡ true)
unfolding slug
slug_lem name =
    let s = rstrip_dash (lstrip_dash (collapse false (lower (strip name)))) in
    or_text-IsSlug (take_text 32 s) (size-take_text 32 s) (
      are_safe-take_text 32 s
        (are_safe-rstrip_dash _ (are_safe-lstrip_dash _ (are_safe-collapse false _))))
