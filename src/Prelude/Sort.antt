-- ===== src/Prelude/Sort.antt =====
-- Python's `sorted(xs, key=k)`: a stable sort. What it promises: the same items, keys that do not
-- fall, and items of one key in the order that they had.
use mathlib.Core.List.{Perm}
use mathlib.Core.List.Perm
use Prim.Native.Nat.{ℕ, ◌≤◌}
use mathlib.Core.Path.{◌≡◌, refl, ◌∙◌}
use mathlib.Core.Logic.{inl, inr}
use mathlib.Core.List.{List, [], ◌∷◌}
use mathlib.Core.Bool.{Bool, true, false}
use native.Mathlib.Omega.{arith}
use tantor_v.Prelude.Tests.{leb, eqb, leb→le, leb_false→lt, if◌then◌else◌, Bool-cases}
use tantor_v.Prelude.Lists.{All, All-map, filter}

module _ {ℓ} {A : Type ℓ} (key : A → ℕ) where
  insert_by : A → List A → List A
  insert_by x [] = x ∷ []
  insert_by x (y ∷ ys) = if leb (key x) (key y) then x ∷ y ∷ ys else y ∷ insert_by x ys

  unfoldable pub sort_by : List A → List A
  unfolding insert_by
  sort_by [] = []
  sort_by (x ∷ xs) = insert_by x (sort_by xs)

  -- Every item's key is at most the keys behind it.
  abbrev pub IsSortedBy : List A → Type ℓ
  IsSortedBy [] = Unit
  IsSortedBy (x ∷ xs) = All (λ y. key x ≤ key y) xs × IsSortedBy xs

  All-insert_by {κ} :
      (P : A → Type κ) (x : A) (ys : List A) → P x → All P ys → All P (insert_by x ys)
  unfolding insert_by
  All-insert_by P x [] h hs = (h, tt)
  All-insert_by P x (y ∷ ys) h hs = elim (Bool-cases (leb (key x) (key y))) [
    | inl below ↦ rw below (h, hs)
    | inr above ↦ rw above (hs.0, All-insert_by P x ys h hs.1)
  ]

  insert_by-IsSortedBy : (x : A) (ys : List A) → IsSortedBy ys → IsSortedBy (insert_by x ys)
  unfolding insert_by
  insert_by-IsSortedBy x [] s = (tt, tt)
  insert_by-IsSortedBy x (y ∷ ys) s = elim (Bool-cases (leb (key x) (key y))) [
    | inl below ↦
        let h = leb→le (key x) (key y) below in
        rw below ((h, All-map ys (λ z p. omega arith) s.0), s)
    | inr above ↦
        let h = leb_false→lt (key x) (key y) above in
        rw above (All-insert_by _ x ys (omega arith) s.0, insert_by-IsSortedBy x ys s.1)
  ]

  pub sort_by-IsSortedBy : (xs : List A) → IsSortedBy (sort_by xs)
  unfolding sort_by
  sort_by-IsSortedBy [] = tt
  sort_by-IsSortedBy (x ∷ xs) = insert_by-IsSortedBy x (sort_by xs) (sort_by-IsSortedBy xs)

  pub All-sort_by {κ} : (P : A → Type κ) (xs : List A) → All P xs → All P (sort_by xs)
  unfolding sort_by
  All-sort_by P [] h = tt
  All-sort_by P (x ∷ xs) h = All-insert_by P x (sort_by xs) h.0 (All-sort_by P xs h.1)

  insert_by-perm : (x : A) (ys : List A) → Perm (insert_by x ys) (x ∷ ys)
  unfolding insert_by
  insert_by-perm x [] = Perm.refl (x ∷ [])
  insert_by-perm x (y ∷ ys) = elim (Bool-cases (leb (key x) (key y))) [
    | inl below ↦ rw below (Perm.refl (x ∷ y ∷ ys))
    | inr above ↦ rw above (Perm.trans (Perm.cons y (insert_by-perm x ys)) (Perm.swap x y ys))
  ]

  pub sort_by-perm : (xs : List A) → Perm (sort_by xs) xs
  unfolding sort_by
  sort_by-perm [] = Perm.refl []
  sort_by-perm (x ∷ xs) = Perm.trans (insert_by-perm x (sort_by xs)) (Perm.cons x (sort_by-perm xs))

  -- The items with key `k`.
  abbrev pub with_key : ℕ → List A → List A
  with_key k = filter (λ x. eqb (key x) k)

  with_key-insert_by :
      (k : ℕ) (x : A) (ys : List A) → with_key k (insert_by x ys) ≡ with_key k (x ∷ ys)
  unfolding insert_by
  with_key-insert_by k x [] = refl
  with_key-insert_by k x (y ∷ ys) = ground (arith, with_key-insert_by k x ys)

  pub with_key-sort_by : (k : ℕ) (xs : List A) → with_key k (sort_by xs) ≡ with_key k xs
  unfolding sort_by
  with_key-sort_by k [] = refl
  with_key-sort_by k (x ∷ xs) = with_key-insert_by k x (sort_by xs) ∙ rw (with_key-sort_by k xs)

-- The same with a comparison: `less y x` says that `y` has the smaller key.
module _ {ℓ} {A : Type ℓ} (less : A → A → Bool) where
  insert_with : A → List A → List A
  insert_with x [] = x ∷ []
  insert_with x (y ∷ ys) = if less y x then y ∷ insert_with x ys else x ∷ y ∷ ys

  unfoldable pub sort_with : List A → List A
  unfolding insert_with
  sort_with [] = []
  sort_with (x ∷ xs) = insert_with x (sort_with xs)

  All-insert_with {κ} :
      (P : A → Type κ) (x : A) (ys : List A) → P x → All P ys → All P (insert_with x ys)
  unfolding insert_with
  All-insert_with P x [] h hs = (h, tt)
  All-insert_with P x (y ∷ ys) h hs = elim (Bool-cases (less y x)) [
    | inl below ↦ rw below (hs.0, All-insert_with P x ys h hs.1)
    | inr above ↦ rw above (h, hs)
  ]

  pub All-sort_with {κ} : (P : A → Type κ) (xs : List A) → All P xs → All P (sort_with xs)
  unfolding sort_with
  All-sort_with P [] h = tt
  All-sort_with P (x ∷ xs) h = All-insert_with P x (sort_with xs) h.0 (All-sort_with P xs h.1)

  -- No item behind has a smaller key.
  abbrev pub IsAscending : List A → Type ℓ
  IsAscending [] = Unit
  IsAscending (x ∷ xs) = All (λ y. less y x ≡ false) xs × IsAscending xs

  module _ (asym : (a b : A) → less a b ≡ true → less b a ≡ false)
      (trans : (a b c : A) → less b a ≡ false → less c b ≡ false → less c a ≡ false) where
    insert_with-IsAscending :
        (x : A) (ys : List A) → IsAscending ys → IsAscending (insert_with x ys)
    unfolding insert_with
    insert_with-IsAscending x [] s = (tt, tt)
    insert_with-IsAscending x (y ∷ ys) s = elim (Bool-cases (less y x)) [
      | inl below ↦ rw below (
        All-insert_with (λ z. less z y ≡ false) x ys (asym y x below) s.0,
        insert_with-IsAscending x ys s.1,
      )
      | inr above ↦ rw above ((above, All-map ys (λ z h. trans x y z above h) s.0), s)
    ]

    pub sort_with-IsAscending : (xs : List A) → IsAscending (sort_with xs)
    unfolding sort_with
    sort_with-IsAscending [] = tt
    sort_with-IsAscending (x ∷ xs) =
        insert_with-IsAscending x (sort_with xs) (sort_with-IsAscending xs)
