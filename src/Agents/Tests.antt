-- ===== src/Agents/Tests.antt =====
-- The theorems on agents at concrete inputs.
use tantor_v.Models.{or_text}
use tantor_v.Prelude.{
  ap, eq_iff, true, false, String, ◌≡◌, ◌≢◌, refl, List, [], Option, ◌∷◌, none, some, ◌==◌, ◌&&◌,
  if◌then◌else◌,
}
use tantor_v.Prelude.Dict.{lookup}
use tantor_v.Agents.Registry.{
  Session, Registry, empty, register, remove, get, is_agent, IsConsistent, here, next, registers,
  removes, Reaches-IsConsistent, register_lem, get-remove, remove-register_reconnect,
}
use tantor_v.Agents.Pending.{
  result, Frame, Step, begins, delivers, finish_cmd, run, finish_cmd-first_answer,
}

abbrev session : String → String → String → Session
session agent host socket = record { agent_id = agent; host_id = host; websocket = socket }

abbrev old_session : Session
old_session = session "a" "h" "w1"

abbrev new_session : Session
new_session = session "a" "h" "w2"

abbrev reached : Registry
reached = remove old_session (register new_session empty).0

Reaches-IsConsistent_example : IsConsistent reached
Reaches-IsConsistent_example = Reaches-IsConsistent (
    next (next here (registers new_session empty))
      (removes old_session (register new_session empty).0))

register_lem_example :
    (get "h" (register new_session empty).0
      ≡ (if "h" == "h" then some new_session else get "h" empty))
    × ((register new_session empty).1 ≡ get "h" empty)
register_lem_example = register_lem new_session empty "h"

get-remove_example : get "h" (remove old_session (register new_session empty).0) ≡ (
    if is_agent (get "h" (register new_session empty).0) old_session && "h" == "h"
    then none
    else get "h" (register new_session empty).0)
get-remove_example = get-remove old_session (register new_session empty).0 "h"

remove-register_reconnect_example :
    (get "h" (register new_session empty).0 ≡ some new_session) × (get "h" reached ≡ none)
remove-register_reconnect_example =
    remove-register_reconnect old_session new_session empty refl refl

abbrev reply : String → Frame
reply ref = record { kind = some "result"; ref = some ref; payload = none }

-- A command "1" whose answer comes behind another command and that command's answer.
abbrev steps : List Step
steps =
    begins "1"
    ∷ begins "2"
    ∷ delivers (reply "2")
    ∷ delivers (reply "1")
    ∷ delivers (reply "1")
    ∷ []

finish_cmd-first_answer_example :
    ((finish_cmd "1" (run [] steps)).0 ≡ some (result []))
    × (lookup "1" (finish_cmd "1" (run [] steps)).1 ≡ none)
finish_cmd-first_answer_example =
    finish_cmd-first_answer "1" (reply "1") (result []) (begins "2" ∷ delivers (reply "2") ∷ [])
      (delivers (reply "1") ∷ []) [] refl refl refl (refl, (differ, tt)) (tt, tt)
  where
    differ : ◌≢◌ {A = Option String} (some "2") (some "1")
    differ e =
        let same : "2" ≡ "1" = ap (λ o. or_text o "") e in
        let clash : false ≡ true = (eq_iff "2" "1").1 same in cc
