-- ===== src/Ports/Tests.antt =====
-- The theorems on ports at concrete inputs.
use tantor_v.Prelude.{ℕ, List, [], ◌∷◌, ◌⊎◌}
use tantor_v.Prelude.Int.{pos}
use mathlib.Core.List.{Perm}
use tantor_v.Prelude.Dict.{Dict}
use tantor_v.Ports.Checks.{PortCheck, group_onto}
use tantor_v.Ports.Free.{
  used_ports, find_free_port_set, IsFirstFree, AllClash, find_free_port_set-first,
}
use tantor_v.Ports.Groups.{IsGrouping, grouped, group_onto-empty}

abbrev occupied : Dict (List ℕ)
occupied = ("h1", 9092 ∷ []) ∷ ("h2", 9193 ∷ []) ∷ []

find_free_port_set-first_example :
    IsFirstFree
      (used_ports occupied ("h1" ∷ "h2" ∷ []))
      10
      0
      (find_free_port_set occupied ("h1" ∷ "h2" ∷ []))
    ⊎ AllClash
        (used_ports occupied ("h1" ∷ "h2" ∷ []))
        10
        0
        (find_free_port_set occupied ("h1" ∷ "h2" ∷ []))
find_free_port_set-first_example = find_free_port_set-first occupied ("h1" ∷ "h2" ∷ [])

abbrev checks : List PortCheck
checks =
    record { host_id = "h1"; port = pos 9092; label = "broker" }
    ∷ record { host_id = "h2"; port = pos 9092; label = "broker" }
    ∷ record { host_id = "h1"; port = pos 9093; label = "controller" }
    ∷ []

group_onto-empty_example :
    IsGrouping (group_onto [] checks) × Perm (grouped (group_onto [] checks)) checks
group_onto-empty_example = group_onto-empty checks
