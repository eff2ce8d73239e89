-- ===== src/Json.antt =====
-- Values of a parsed JSON object, and Python's `int(…)` and truth test on them.
use Prim.Native.Char.{code}
use tantor_v.Prelude.{
  ℕ, ◌+◌, ◌-◌, ◌*◌, String, ◌≡◌, refl, Bool, false, not, ◌&&◌, ◌||◌, Option, none, some, leb, eqb,
  ◌==◌, if◌then◌else◌,
}
use tantor_v.Prelude.Int.{ℤ, pos, neg, is_zero}
use tantor_v.Prelude.Text.{strip}

-- `other` is any other value (a float, a list, an object): its truth value, and what `int` makes of
-- it, `none` where `int` raises.
pub data Value : Type 0 where
  null : Value
  bool : Bool → Value
  int : ℤ → Value
  text : String → Value
  other : Bool → Option ℤ → Value

abbrev pub truthy : Value → Bool
truthy null = false
truthy (bool b) = b
truthy (int n) = not (is_zero n)
truthy (text s) = not (s == "")
truthy (other b n) = b

-- The digits of a decimal literal, with single underscores between them.
digits : Bool → ℕ → String → Option ℕ
digits after_digit acc String.[] = if after_digit then some acc else none
digits after_digit acc (String.◌∷◌ c s) =
    let d = code c in
    let is_digit = leb b'0' d && leb d b'9' in
    let rest = digits is_digit (if is_digit then acc * 10 + (d - b'0') else acc) s in
    if is_digit || (eqb d b'_' && after_digit) then rest else none

abbrev as_pos : Option ℕ → Option ℤ
as_pos none = none
as_pos (some n) = some (pos n)

abbrev as_neg : Option ℕ → Option ℤ
as_neg none = none
as_neg (some n) = some (neg (pos n))

signed : String → Option ℤ
unfolding digits
signed String.[] = none
signed (String.◌∷◌ c s) =
    if eqb (code c) b'-'
    then as_neg (digits false 0 s)
    else if eqb (code c) b'+'
    then as_pos (digits false 0 s)
    else as_pos (digits false 0 (String.◌∷◌ c s))

-- `int(s)` on a text with ASCII digits; `none` is a ValueError.
unfoldable pub int_of_text : String → Option ℤ
unfolding signed strip
int_of_text s = signed (strip s)

-- `int(v)`; `none` is a TypeError or a ValueError.
abbrev pub int_of : Value → Option ℤ
int_of null = none
int_of (bool b) = some (if b then pos 1 else pos 0)
int_of (int n) = some n
int_of (text s) = int_of_text s
int_of (other b n) = n

int_of_text_lem : int_of_text " -9_092 " ≡ some (neg (pos 9092))
unfolding int_of_text
int_of_text_lem = refl
