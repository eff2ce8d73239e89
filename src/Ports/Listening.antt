-- ===== src/Ports/Listening.antt =====
-- services/port_preflight.py: `_list_listening`, the ports that are held on a host and by whom.
use Prim.Native.Char.{code}
use tantor_v.Prelude.{
  ℕ, ◌+◌, ◌-◌, ◌*◌, String, Bool, true, false, not, ◌&&◌, ◌||◌, Option, none, some, List, [], ◌∷◌,
  ◌++◌, leb, eqb, ◌==◌, if◌then◌else◌,
}
use tantor_v.Prelude.Int.{ℤ, pos, negsuc}
use tantor_v.Prelude.Text.{strip, strip_prefix, partition, contains, splitlines, concat, is_space}
use tantor_v.Prelude.Exec.{Exec, pure, ◌>>=◌}
use tantor_v.Models.{Host}
use tantor_v.Json.{int_of_text}
use tantor_v.Remote.{Machines, World, Reply, succeeded, exec_command}

-- The two shell loops: over `ss` or `netstat` for the ports, and over `systemctl` for the pids.
pub data PortCommand : Type 0 where
  sockets : List ℤ → PortCommand
  units_of : List ℕ → PortCommand

abbrev pub eq_ℤ : ℤ → ℤ → Bool
eq_ℤ (pos a) (pos b) = eqb a b
eq_ℤ (negsuc a) (negsuc b) = eqb a b
eq_ℤ _ _ = false

-- A dict from ports to what holds them.
abbrev pub Holders : Type 0
Holders = List (ℤ × String)

abbrev pub holder : ℤ → Holders → Option String
holder port [] = none
holder port ((p, s) ∷ rest) = if eq_ℤ p port then some s else holder port rest

abbrev is_digit : ℕ → Bool
is_digit c = leb b'0' c && leb c b'9'

-- `\d+` at the start of the text.
leading_digits : Option ℕ → String → Option ℕ
leading_digits acc String.[] = acc
leading_digits acc (String.◌∷◌ c s) =
    let so_far : ℕ = elim acc [ none ↦ 0 | some n ↦ n ] in
    let more = leading_digits (some (so_far * 10 + (code c - b'0'))) s in
    if is_digit (code c) then more else acc

abbrev or_later : Option ℕ → Option ℕ → Option ℕ
or_later (some n) later = some n
or_later none later = later

-- `re.search(r"pid=(\d+)", s)`
unfoldable pub pid_after_equals : String → Option ℕ
unfolding leading_digits strip_prefix
pid_after_equals String.[] = none
pid_after_equals (String.◌∷◌ c s) =
    let later = pid_after_equals s in
    elim (strip_prefix "pid=" (String.◌∷◌ c s)) [
      | some r ↦ or_later (leading_digits none r) later
      | none ↦ later
    ]

-- `re.search(r"(\d+)/", s)`; `run` is the number whose digits have just been read.
pid_before_slash : Option ℕ → String → Option ℕ
pid_before_slash run String.[] = none
pid_before_slash run (String.◌∷◌ c s) =
    let so_far : ℕ = elim run [ none ↦ 0 | some n ↦ n ] in
    let is_end = eqb (code c) b'/' in
    let rest =
      pid_before_slash (if is_digit (code c) then some (so_far * 10 + (code c - b'0')) else none)
        s in
    elim run [ none ↦ rest | some n ↦ if is_end then some n else rest ]

-- The last word of a stripped text: `s.split()[-1]`, or "" when there is none.
last_word : String → String → String
last_word word String.[] = word
last_word word (String.◌∷◌ c s) =
    last_word (if is_space (code c) then "" else concat (word ∷ String.◌∷◌ c "" ∷ [])) s

abbrev is_paren : ℕ → Bool
is_paren c = eqb c b'(' || eqb c b')'

lstrip_parens : String → String
lstrip_parens String.[] = ""
lstrip_parens (String.◌∷◌ c s) =
    let rest = lstrip_parens s in if is_paren (code c) then rest else String.◌∷◌ c s

rstrip_parens : String → String
rstrip_parens String.[] = ""
rstrip_parens (String.◌∷◌ c s) =
    let rest = rstrip_parens s in if is_paren (code c) && rest == "" then "" else String.◌∷◌ c rest

-- What one line of output says of its process, and its pid.
abbrev described : Option (String × String) → String → String × Option ℕ
described (some (_, behind)) rest =
    let users = rstrip_parens (lstrip_parens (strip behind)) in (users, pid_after_equals users)
described none rest =
    let tail = last_word "" (strip rest) in
    if contains "/" rest then (tail, pid_before_slash none tail) else ("unknown", none)

-- `if pid_int:`
abbrev nonzero : Option ℕ → Option ℕ
nonzero none = none
nonzero (some n) = if eqb n 0 then none else some n

-- The ports found so far, each with its description and the pid to resolve.
abbrev Found : Type 0
Found = List (ℤ × String × Option ℕ)

found_port : ℤ → Found → Bool
found_port port [] = false
found_port port ((p, _, _) ∷ rest) = eq_ℤ p port || found_port port rest

abbrev add_found : Option ℤ → String → Found → Found
add_found none rest found = found
add_found (some port) rest found =
    let (proc, pid) = described (partition "users:" rest) rest in
    if found_port port found then found else found ++ ((port, proc, nonzero pid) ∷ [])

-- One line of the first command's output.
read_line : Found → String → Found
read_line found line = elim (partition "::" line) [
  | none ↦ found
  | some (port, rest) ↦ add_found (int_of_text port) rest found
]

read_lines : Found → List String → Found
unfolding read_line found_port last_word lstrip_parens rstrip_parens pid_before_slash
read_lines found [] = found
read_lines found (line ∷ rest) = read_lines (read_line found line) rest

add_once : ℕ → List ℕ → List ℕ
add_once n [] = n ∷ []
add_once n (m ∷ rest) = if eqb n m then m ∷ rest else m ∷ add_once n rest

-- `pids_to_resolve`
pids : Found → List ℕ
unfolding add_once
pids [] = []
pids ((_, _, none) ∷ rest) = pids rest
pids ((_, _, some n) ∷ rest) = add_once n (pids rest)

-- `pid_unit`: of two lines for one pid the later counts.
unit_of : ℕ → List String → Option String
unit_of pid [] = none
unit_of pid (line ∷ rest) =
    let later = unit_of pid rest in
    elim later [
      | some u ↦ some u
      | none ↦ elim (partition "=" line) [
        | none ↦ none
        | some (n, unit) ↦ elim (int_of_text n) [
          | none ↦ none
          | some k ↦ if eq_ℤ k (pos pid) then some (strip unit) else none
        ]
      ]
    ]

abbrev with_unit : String → Option String → String
with_unit proc none = proc
with_unit proc (some unit) =
    if unit == "" || (unit == "0" || unit == "n/a")
    then proc
    else concat (proc ∷ " (" ∷ unit ∷ ")" ∷ [])

resolve : List String → Found → Holders
unfolding unit_of
resolve lines [] = []
resolve lines ((port, proc, none) ∷ rest) = (port, proc) ∷ resolve lines rest
resolve lines ((port, proc, some pid) ∷ rest) =
    (port, with_unit proc (unit_of pid lines)) ∷ resolve lines rest

-- What the first command's answer says.
found_in : Reply → Found
unfolding read_lines
found_in r = if not (succeeded r) || r.stdout == "" then [] else read_lines [] (splitlines r.stdout)

-- The second answer counts only if its command succeeded.
resolved_by : Found → Reply → Holders
unfolding resolve
resolved_by found r =
    resolve (if succeeded r && not (r.stdout == "") then splitlines r.stdout else []) found

abbrev no_pids : List ℕ → Bool
no_pids [] = true
no_pids (_ ∷ _) = false

module _ {C D : Type 0} (net : Machines C) (embed : PortCommand → C) (host : Host) where
  -- `_list_listening`, and `list_listening_ports`, its public name.
  unfoldable pub list_listening : List ℤ → Exec (World C D) Holders
  unfolding found_in pids resolved_by
  list_listening ports = do
    r ← exec_command net host (embed (sockets ports))
    if no_pids (pids (found_in r)) then pure (resolve [] (found_in r)) else do
      r2 ← exec_command net host (embed (units_of (pids (found_in r))))
      pure (resolved_by (found_in r) r2)
