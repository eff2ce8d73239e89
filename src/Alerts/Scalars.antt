-- ===== src/Alerts/Scalars.antt =====
-- services/alert_manager.py: how texts and durations are written into the YAML files.
use Prim.Native.Char.{code}
use Prim.Native.String.{String, ◌++◌}
use tantor_v.Prelude.{ℕ, ◌/◌, ◌%◌, Option, none, some, eqb, if◌then◌else◌}
use tantor_v.Prelude.Int.{ℤ, pos, negsuc}
use tantor_v.Prelude.Text.{decimal}

-- `s.replace(c, by)` for a text `c` of one character.
unfoldable pub replace : ℕ → String → String → String
replace c by String.[] = ""
replace c by (String.◌∷◌ d s) =
    let rest = replace c by s in if eqb (code d) c then by ++ rest else String.◌∷◌ d rest

-- `_yaml_str`
unfoldable pub yaml_str : Option String → String
yaml_str none = "\"\""
yaml_str (some value) = "\"" ++ (replace b'"' "\\\"" (replace b'\\' "\\\\" value) ++ "\"")

-- `_seconds_to_duration`
unfoldable pub seconds_to_duration : ℤ → String
seconds_to_duration (negsuc n) = "0s"
seconds_to_duration (pos n) =
    if eqb n 0
    then "0s"
    else if eqb (n % 3600) 0
    then decimal (n / 3600) ++ "h"
    else if eqb (n % 60) 0
    then decimal (n / 60) ++ "m"
    else decimal n ++ "s"
