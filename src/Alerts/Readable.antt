-- ===== src/Alerts/Readable.antt =====
-- services/alert_manager.py: a reader of YAML gets back what `_yaml_str` wrote on one line, and a reader of
-- durations what `_seconds_to_duration` wrote.
use Prim.Native.Char.{Char, code}
use Prim.Native.String.{String, ◌++◌}
use text.Mathlib.TextEquality.{Char-path}
use tantor_v.Prelude.{
  ℕ, ◌≡◌, refl, Bool, true, false, ◌&&◌, ◌||◌, arith, Option, none, some, eqb, eqb_iff, leb,
  Bool-cases, inl, inr, if◌then◌else◌,
}
use tantor_v.Prelude.Text.{append_laws, append_assoc, nil-append, cons-append}
use tantor_v.Alerts.Scalars.{replace, yaml_str}

abbrev cons_to : Char → Option (String × String) → Option (String × String)
cons_to c none = none
cons_to c (some (s, rest)) = some (String.◌∷◌ c s, rest)

-- What YAML lets stand for itself inside a double-quoted scalar on one line: a tab, and what is
-- printable and no line break. Line breaks are folded by YAML and are no part of this reader.
abbrev is_plain : ℕ → Bool
is_plain c =
    eqb c 9
    || leb 32 c && leb c 126
    || leb 160 c && leb c 8231
    || leb 8234 c && leb c 55295
    || leb 57344 c && leb c 65278
    || leb 65280 c && leb c 65533
    || leb 65536 c

-- Whether a text is of such characters.
abbrev pub is_one_line : String → Bool
is_one_line String.[] = true
is_one_line (String.◌∷◌ c s) = is_plain (code c) && is_one_line s

-- A double-quoted scalar of YAML on one line, behind its first quote: its value, and what follows
-- it. Of the escapes only those of the quote and of the backslash are read.
read_scalar : Bool → String → Option (String × String)
read_scalar escaped String.[] = none
read_scalar true (String.◌∷◌ c s) =
    let rest = cons_to c (read_scalar false s) in
    if eqb (code c) b'"' then rest else if eqb (code c) b'\\' then rest else none
read_scalar false (String.◌∷◌ c s) =
    let copied = cons_to c (read_scalar false s) in
    let escape = read_scalar true s in
    if eqb (code c) b'"'
    then some ("", s)
    else if eqb (code c) b'\\'
    then escape
    else if is_plain (code c)
    then copied
    else none

unfoldable pub read_yaml : String → Option (String × String)
unfolding read_scalar
read_yaml String.[] = none
read_yaml (String.◌∷◌ c s) =
    let value = read_scalar false s in if eqb (code c) b'"' then value else none

abbrev quoted : String → String
quoted s = replace b'"' "\\\"" (replace b'\\' "\\\\" s)

-- A text of one character in front of another.
single-append : (q : String) (c : Char) (t : String) → q ≡ String.◌∷◌ c "" → q ++ t ≡ String.◌∷◌ c t
single-append q c t e = rw e (simp append_laws)

pair-append :
    (q : String) (c d : Char) (t : String)
    → q ≡ String.◌∷◌ c (String.◌∷◌ d "")
    → q ++ t ≡ String.◌∷◌ c (String.◌∷◌ d t)
pair-append q c d t e = rw e (simp append_laws)

read_scalar_end : (rest : String) → read_scalar false ("\"" ++ rest) ≡ some ("", rest)
unfolding read_scalar
read_scalar_end rest = rw (single-append "\"" _ rest refl) refl

read_scalar_escape :
    (rest s t : String)
    → read_scalar false rest ≡ some (s, t)
    → (read_scalar false ("\\\"" ++ rest) ≡ some ("\"" ++ s, t))
      × (read_scalar false ("\\\\" ++ rest) ≡ some ("\\" ++ s, t))
unfolding read_scalar
read_scalar_escape rest s t e = (
  rw (pair-append "\\\"" _ _ rest refl) (rw (e, single-append "\"" _ s refl) refl),
  rw (pair-append "\\\\" _ _ rest refl) (rw (e, single-append "\\" _ s refl) refl),
)

pair_assoc :
    (q : String) (c d : Char) (s t : String)
    → q ≡ String.◌∷◌ c (String.◌∷◌ d "")
    → (q ++ s) ++ t ≡ q ++ (s ++ t)
pair_assoc q c d s t e = rw e (simp append_laws)

single_same :
    (q : String) (c d : Char) (s : String)
    → q ≡ String.◌∷◌ d ""
    → code c ≡ code d
    → q ++ s ≡ String.◌∷◌ c s
single_same q c d s e same = rw (single-append q d s e) (rw (Char-path c d same) refl)

module _ (c : Char) (s : String) where
  quoted_backslash : eqb (code c) b'\\' ≡ true → quoted (String.◌∷◌ c s) ≡ "\\\\" ++ quoted s
  unfolding replace
  quoted_backslash h = rw h (
      rw (pair-append "\\\\" _ _ (replace b'\\' "\\\\" s) refl)
        (rw (pair-append "\\\\" _ _ (quoted s) refl) refl))

  quoted_quote :
      eqb (code c) b'\\' ≡ false
      → eqb (code c) b'"' ≡ true
      → quoted (String.◌∷◌ c s) ≡ "\\\"" ++ quoted s
  unfolding replace
  quoted_quote other h = rw (other, h) refl

  quoted_plain :
      eqb (code c) b'\\' ≡ false
      → eqb (code c) b'"' ≡ false
      → quoted (String.◌∷◌ c s) ≡ String.◌∷◌ c (quoted s)
  unfolding replace
  quoted_plain other plain = rw (other, plain) refl

and_split : (a b : Bool) → (a && b) ≡ true → (a ≡ true) × (b ≡ true)
and_split a b h = (ground (arith, h), ground (arith, h))

read_scalar-quoted :
    (s rest : String)
    → is_one_line s ≡ true
    → read_scalar false (quoted s ++ ("\"" ++ rest)) ≡ some (s, rest)
unfolding read_scalar replace
read_scalar-quoted String.[] rest h = rw nil-append (read_scalar_end rest)
read_scalar-quoted (String.◌∷◌ c s) rest h =
    let fits = and_split (is_plain (code c)) (is_one_line s) h in
    let tail = "\"" ++ rest in
    let escape = read_scalar_escape (quoted s ++ tail) s rest (read_scalar-quoted s rest fits.1) in
    elim (Bool-cases (eqb (code c) b'\\')) [
      | inl backslash ↦
          let same : "\\" ++ s ≡ String.◌∷◌ c s =
            single_same "\\" c _ s refl ((eqb_iff (code c) b'\\').0 backslash) in
          rw
            (
              quoted_backslash c s backslash,
              pair_assoc "\\\\" _ _ (quoted s) tail refl,
              escape.1,
              same,
            )
            refl
      | inr other ↦ elim (Bool-cases (eqb (code c) b'"')) [
        | inl quote ↦
            let same : "\"" ++ s ≡ String.◌∷◌ c s =
              single_same "\"" c _ s refl ((eqb_iff (code c) b'"').0 quote) in
            rw
              (
                quoted_quote c s other quote,
                pair_assoc "\\\"" _ _ (quoted s) tail refl,
                escape.0,
                same,
              )
              refl
        | inr plain ↦
            rw (quoted_plain c s other plain, cons-append c (quoted s) tail)
              (rw (plain, other, fits.0, read_scalar-quoted s rest fits.1) refl)
      ]
    ]

read_yaml-quoted :
    (s rest : String)
    → is_one_line s ≡ true
    → read_yaml ("\"" ++ (quoted s ++ ("\"" ++ rest))) ≡ some (s, rest)
unfolding read_yaml
read_yaml-quoted s rest h =
    rw (single-append "\"" _ (quoted s ++ ("\"" ++ rest)) refl) (read_scalar-quoted s rest h)

-- None stands for the empty text.
abbrev pub text_of : Option String → String
text_of none = ""
text_of (some s) = s

-- A text on one line, of printable characters and tabs, that _yaml_str writes is read back by a
-- reader of YAML's double-quoted scalars, whatever quotes and backslashes it has, and what follows it
-- is left untouched: such a text does not get out of its quotes. None reads as the empty text.
pub read_yaml-yaml_str :
    (value : Option String) (rest : String)
    → is_one_line (text_of value) ≡ true
    → read_yaml (yaml_str value ++ rest) ≡ some (text_of value, rest)
unfolding yaml_str read_yaml read_scalar
read_yaml-yaml_str none rest h = rw (pair-append "\"\"" _ _ rest refl) refl
read_yaml-yaml_str (some s) rest h =
    rw (append_assoc "\"" (quoted s ++ "\"") rest, append_assoc (quoted s) "\"" rest)
      (read_yaml-quoted s rest h)
