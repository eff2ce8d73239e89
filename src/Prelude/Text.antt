-- ===== src/Prelude/Text.antt =====
-- The text methods of Python that the code uses, on the native texts.
pub mod Decimal
use Prim.Native.Nat.{ℕ, zero, suc, ◌/◌, ◌%◌}
use mathlib.Core.List.{List, [], ◌∷◌}
use mathlib.Core.Option.{Option, none, some}
use Prim.Native.Char.{Char, code}
use Prim.Native.String.{String, ◌++◌}
use Prim.Native.String.append.{nil, cons}
use mathlib.Core.Path.{◌≡◌, refl}
use mathlib.Core.Bool.{Bool, true, false, ◌&&◌, ◌||◌}
use tantor_v.Prelude.Int.{ℤ, pos, negsuc}
use tantor_v.Prelude.Tests.{leb, eqb, if◌then◌else◌}

-- `c.isspace()`, by code point.
abbrev pub is_space : ℕ → Bool
is_space c =
    (leb 9 c && leb c 13)
    || (leb 28 c && leb c 32)
    || eqb c 133
    || eqb c 160
    || eqb c 5760
    || (leb 8192 c && leb c 8202)
    || eqb c 8232
    || eqb c 8233
    || eqb c 8239
    || eqb c 8287
    || eqb c 12288

lstrip : String → String
lstrip String.[] = String.[]
lstrip (String.◌∷◌ c s) = let rest = lstrip s in if is_space (code c) then rest else String.◌∷◌ c s

abbrev cons_unless_blank : Char → String → String
cons_unless_blank c String.[] = if is_space (code c) then String.[] else String.◌∷◌ c String.[]
cons_unless_blank c (String.◌∷◌ d s) = String.◌∷◌ c (String.◌∷◌ d s)

rstrip : String → String
rstrip String.[] = String.[]
rstrip (String.◌∷◌ c s) = cons_unless_blank c (rstrip s)

-- `s.strip()`
unfoldable pub strip : String → String
unfolding lstrip rstrip
strip s = rstrip (lstrip s)

-- `s[:n]`
unfoldable pub take_text : ℕ → String → String
take_text zero s = String.[]
take_text (suc n) String.[] = String.[]
take_text (suc n) (String.◌∷◌ c s) = String.◌∷◌ c (take_text n s)

-- `s[n:]`
unfoldable pub drop_text : ℕ → String → String
drop_text zero s = s
drop_text (suc n) String.[] = String.[]
drop_text (suc n) (String.◌∷◌ c s) = drop_text n s

-- `"".join(parts)`: an f-string is the list of its parts.
unfoldable pub concat : List String → String
concat [] = ""
concat (s ∷ rest) = ◌++◌ s (concat rest)

-- `sep.join(parts)`
unfoldable pub join : String → List String → String
join sep [] = ""
join sep (s ∷ []) = s
join sep (s ∷ t ∷ rest) = ◌++◌ s (◌++◌ sep (join sep (t ∷ rest)))

digit : ℕ → String
digit d =
    if eqb d 0
    then "0"
    else if eqb d 1
    then "1"
    else if eqb d 2
    then "2"
    else if eqb d 3
    then "3"
    else if eqb d 4
    then "4"
    else if eqb d 5
    then "5"
    else if eqb d 6
    then "6"
    else if eqb d 7
    then "7"
    else if eqb d 8
    then "8"
    else "9"

-- The digits of `n` in front of `acc`; `n` rounds are enough, since `n / 10 < n`.
digits_onto : ℕ → ℕ → String → String
unfolding digit
digits_onto zero n acc = acc
digits_onto (suc fuel) n acc =
    let rest = digits_onto fuel (n / 10) (◌++◌ (digit (n % 10)) acc) in
    if eqb n 0 then acc else rest

-- `str(n)`
unfoldable pub decimal : ℕ → String
unfolding digits_onto
decimal n = if eqb n 0 then "0" else digits_onto n n ""

-- `str(z)` of an int that may be negative.
abbrev pub int_text : ℤ → String
int_text (pos n) = decimal n
int_text (negsuc n) = ◌++◌ "-" (decimal (suc n))

-- The letter of the same place in the second text.
paired : ℕ → String → String → Option Char
paired c String.[] t = none
paired c (String.◌∷◌ u s) String.[] = none
paired c (String.◌∷◌ u s) (String.◌∷◌ l t) = if eqb c (code u) then some l else paired c s t

lower_char : Char → Char
unfolding paired
lower_char c = elim (paired (code c) "ABCDEFGHIJKLMNOPQRSTUVWXYZ" "abcdefghijklmnopqrstuvwxyz") [
  | none ↦ c
  | some l ↦ l
]

-- `s.lower()`, on the ASCII letters: the code only looks for ASCII words in the result.
unfoldable pub lower : String → String
unfolding lower_char
lower String.[] = ""
lower (String.◌∷◌ c s) = String.◌∷◌ (lower_char c) (lower s)

-- The rest of `s` behind `prefix`, if it begins so.
unfoldable pub strip_prefix : String → String → Option String
strip_prefix String.[] s = some s
strip_prefix (String.◌∷◌ c p) String.[] = none
strip_prefix (String.◌∷◌ c p) (String.◌∷◌ d s) =
    if eqb (code c) (code d) then strip_prefix p s else none

-- The text behind the last colon.
behind_last_colon : String → Option String
behind_last_colon String.[] = none
behind_last_colon (String.◌∷◌ c s) =
    let later = behind_last_colon s in
    elim later [ some r ↦ some r | none ↦ if eqb (code c) 58 then some s else none ]

-- `s.rpartition(":")[2]`
unfoldable pub rpartition_colon : String → String
unfolding behind_last_colon
rpartition_colon s = elim (behind_last_colon s) [ some r ↦ r | none ↦ s ]

abbrev add_front : Char → Option (String × String) → Option (String × String)
add_front c none = none
add_front c (some (a, b)) = some (String.◌∷◌ c a, b)

-- `s.partition(sep)`, where `sep` occurs; `s.split(sep, 1)` gives the same two parts.
unfoldable pub partition : String → String → Option (String × String)
unfolding strip_prefix
partition sep String.[] = elim (strip_prefix sep String.[]) [ some r ↦ some ("", r) | none ↦ none ]
partition sep (String.◌∷◌ c s) =
    let later = add_front c (partition sep s) in
    elim (strip_prefix sep (String.◌∷◌ c s)) [ some r ↦ some ("", r) | none ↦ later ]

-- `sub in s`
unfoldable pub contains : String → String → Bool
unfolding partition
contains sub s = elim (partition sub s) [ some _ ↦ true | none ↦ false ]

-- A line boundary of `str.splitlines`, but for the two-character one.
abbrev is_break : ℕ → Bool
is_break c =
    (leb 10 c && leb c 13) || (leb 28 c && leb c 30) || eqb c 133 || eqb c 8232 || eqb c 8233

abbrev onto_first : Char → List String → List String
onto_first c [] = String.◌∷◌ c "" ∷ []
onto_first c (l ∷ rest) = String.◌∷◌ c l ∷ rest

-- The lines of `s`, where `after_cr` says that a carriage return has just ended a line.
lines_from : Bool → String → List String
lines_from after_cr String.[] = []
lines_from after_cr (String.◌∷◌ c s) =
    let rest = lines_from (eqb (code c) 13) s in
    if after_cr && eqb (code c) 10
    then rest
    else if is_break (code c)
    then "" ∷ rest
    else onto_first c rest

-- `s.splitlines()`
unfoldable pub splitlines : String → List String
unfolding lines_from
splitlines s = lines_from false s

-- `s.split(sep)` at a separator of one character, given by its code point.
unfoldable pub split : ℕ → String → List String
split sep String.[] = "" ∷ []
split sep (String.◌∷◌ c s) =
    let rest = split sep s in if eqb (code c) sep then "" ∷ rest else onto_first c rest

splitlines_lem : splitlines "a\nb" ≡ "a" ∷ "b" ∷ []
unfolding splitlines
splitlines_lem = refl

partition_lem : partition "::" "9092::x" ≡ some ("9092", "x")
unfolding partition
partition_lem = refl

decimal_lem : decimal 9092 ≡ "9092"
unfolding decimal
decimal_lem = refl

strip_lem : strip " a b  " ≡ "a b"
unfolding strip
strip_lem = refl

-- The clauses of the native append.
pub nil-append : (t : String) → ◌++◌ "" t ≡ t
nil-append t = nil t

pub cons-append : (c : Char) (s t : String) → ◌++◌ (String.◌∷◌ c s) t ≡ String.◌∷◌ c (◌++◌ s t)
cons-append c s t = cons c s t

pub ruleset append_laws = (nil-append, cons-append)

pub append_assoc : (s t u : String) → ◌++◌ (◌++◌ s t) u ≡ ◌++◌ s (◌++◌ t u)
append_assoc String.[] t u = simp append_laws
append_assoc (String.◌∷◌ c s) t u = simp (append_laws, append_assoc s t u)
