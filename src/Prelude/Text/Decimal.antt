-- ===== src/Prelude/Text/Decimal.antt =====
-- The digits that `str(n)` writes are read back as `n`.
use Prim.Native.Char.{Char, code}
use Prim.Native.Nat.{ℕ, zero, suc, ◌+◌, ◌-◌, ◌*◌, ◌/◌, ◌%◌, ◌≤◌, ◌<◌}
use Prim.Native.String.{String, ◌++◌}
use mathlib.Core.Path.{◌≡◌, refl}
use mathlib.Core.Logic.{inl, inr}
use mathlib.Core.Bool.{true, ◌&&◌}
use native.Mathlib.Omega.{arith}
use tantor_v.Prelude.Tests.{leb, eqb, eqb_iff, Bool-cases, if◌then◌else◌}
use tantor_v.Prelude.Text.{digit, digits_onto, decimal, append_laws, nil-append, append_assoc}

-- The number that the digits in front make behind `n`, and what follows them.
unfoldable pub read_digits : ℕ → String → ℕ × String
read_digits n String.[] = (n, "")
read_digits n (String.◌∷◌ c s) =
    let rest = read_digits (n * 10 + (code c - 48)) s in
    if leb 48 (code c) && leb (code c) 57 then rest else (n, String.◌∷◌ c s)

read_literal :
    (q : String) (c : Char) (k n : ℕ) (t : String)
    → q ≡ String.◌∷◌ c ""
    → (leb 48 (code c) && leb (code c) 57) ≡ true
    → code c - 48 ≡ k
    → read_digits n (q ++ t) ≡ read_digits (n * 10 + k) t
unfolding read_digits
read_literal q c k n t e h v =
    let e' : q ++ t ≡ String.◌∷◌ c t = rw e (simp append_laws) in rw (e', h, v) refl

read_digits-digit :
    (d n : ℕ) (t : String) → d < 10 → read_digits n (digit d ++ t) ≡ read_digits (n * 10 + d) t
unfolding digit
read_digits-digit zero n t h = read_literal "0" _ 0 n t refl refl refl
read_digits-digit (suc zero) n t h = read_literal "1" _ 1 n t refl refl refl
read_digits-digit (suc (suc zero)) n t h = read_literal "2" _ 2 n t refl refl refl
read_digits-digit (suc (suc (suc zero))) n t h = read_literal "3" _ 3 n t refl refl refl
read_digits-digit (suc (suc (suc (suc zero)))) n t h = read_literal "4" _ 4 n t refl refl refl
read_digits-digit (suc (suc (suc (suc (suc zero))))) n t h = read_literal "5" _ 5 n t refl refl refl
read_digits-digit (suc (suc (suc (suc (suc (suc zero)))))) n t h =
    read_literal "6" _ 6 n t refl refl refl
read_digits-digit (suc (suc (suc (suc (suc (suc (suc zero))))))) n t h =
    read_literal "7" _ 7 n t refl refl refl
read_digits-digit (suc (suc (suc (suc (suc (suc (suc (suc zero)))))))) n t h =
    read_literal "8" _ 8 n t refl refl refl
read_digits-digit (suc (suc (suc (suc (suc (suc (suc (suc (suc zero))))))))) n t h =
    read_literal "9" _ 9 n t refl refl refl
read_digits-digit (suc (suc (suc (suc (suc (suc (suc (suc (suc (suc d)))))))))) n t h =
    absurd (omega (arith, h))

read_digits-digits_onto :
    (fuel n : ℕ) (t : String) → n ≤ fuel → read_digits 0 (digits_onto fuel n t) ≡ read_digits n t
unfolding digits_onto
read_digits-digits_onto zero n t h = let e : n ≡ 0 = omega (arith, h) in rw e refl
read_digits-digits_onto (suc fuel) n t h = elim (Bool-cases (eqb n 0)) [
  | inl none_left ↦ let e : n ≡ 0 = (eqb_iff n 0).0 none_left in rw none_left (rw e refl)
  | inr more ↦
      let shorter : n / 10 ≤ fuel = omega (arith, h) in
      let last : n % 10 < 10 = omega arith in
      let whole : n / 10 * 10 + n % 10 ≡ n = omega arith in
      rw
        (
          more,
          read_digits-digits_onto fuel (n / 10) (digit (n % 10) ++ t) shorter,
          read_digits-digit (n % 10) (n / 10) t last,
          whole,
        )
        refl
]

digits_onto-append :
    (fuel n : ℕ) (acc t : String) → digits_onto fuel n acc ++ t ≡ digits_onto fuel n (acc ++ t)
unfolding digits_onto
digits_onto-append zero n acc t = refl
digits_onto-append (suc fuel) n acc t = elim (Bool-cases (eqb n 0)) [
  | inl none_left ↦ rw none_left refl
  | inr more ↦
      rw
        (
          more,
          digits_onto-append fuel (n / 10) (digit (n % 10) ++ acc) t,
          append_assoc (digit (n % 10)) acc t,
        )
        refl
]

-- The digits of a number in front of a text are read as the number, if the text goes on from there.
pub read_digits-decimal : (n : ℕ) (t : String) → read_digits 0 (decimal n ++ t) ≡ read_digits n t
unfolding decimal
read_digits-decimal n t = elim (Bool-cases (eqb n 0)) [
  | inl none_left ↦
      let e : n ≡ 0 = (eqb_iff n 0).0 none_left in
      rw none_left (rw e (read_literal "0" _ 0 0 t refl refl refl))
  | inr more ↦
      rw (more, digits_onto-append n n "" t, nil-append t)
        (read_digits-digits_onto n n t (omega arith))
]
