-- ===== src/Restart/Phase.antt =====
-- What an onlooker who sees only the commands and the answers makes of a restart: which unit is
-- down, and whether a unit was stopped before the one before it was seen to be back. This is the
-- promise of "one by one without downtime" in services/rolling_restart_manager.py, independent of
-- how the code keeps it.
use tantor_v.Prelude.{
  String, ◌≡◌, refl, ◌⊎◌, Bool, true, false, ◌&&◌, List, [], ◌∷◌, ◌==◌, eq_refl, if◌then◌else◌,
}
use tantor_v.Prelude.Text.{strip}
use tantor_v.Prelude.Exec.{Result, ok, raised}
use tantor_v.Remote.{Event, ran, asked, slept, Reply, succeeded}
use tantor_v.Restart.Defs.{
  Command, stop, start, is_active, probe_port, api_versions, under_replicated, W,
}

-- By the ids of its host and of its unit: no unit is down; it was told to stop; its start was
-- answered with success; it was then seen active; a unit was stopped too early.
pub data Phase : Type 0 where
  up broken : Phase
  stopping starting active : String → String → Phase

abbrev pub answered_ok : Result Reply → Bool
answered_ok (ok r) = succeeded r
answered_ok (raised e) = false

abbrev pub says_active : Result Reply → Bool
says_active (ok r) = strip r.stdout == "active"
says_active (raised e) = false

-- When `strict`, a unit is back only when its port was reached too.
abbrev pub on_stop : Bool → String → String → Phase → Phase
on_stop strict h u up = stopping h u
on_stop strict h u (active h' u') = if strict then broken else stopping h u
on_stop strict h u _ = broken

abbrev pub on_start : String → String → Bool → Phase → Phase
on_start h u done (stopping h' u') =
    if done && (h == h' && u == u') then starting h' u' else stopping h' u'
on_start h u done p = p

abbrev pub on_active : String → String → Bool → Phase → Phase
on_active h u seen (starting h' u') =
    if seen && (h == h' && u == u') then active h' u' else starting h' u'
on_active h u seen p = p

abbrev pub on_probe : String → Bool → Phase → Phase
on_probe h reached (active h' u') = if reached && h == h' then up else active h' u'
on_probe h reached p = p

abbrev pub observe : Bool → Phase → Event Command → Phase
observe strict p (slept n) = p
observe strict p (asked h op r) = p
observe strict p (ran h (stop u) r) = on_stop strict h.id u p
observe strict p (ran h (start u) r) = on_start h.id u (answered_ok r) p
observe strict p (ran h (is_active u) r) = on_active h.id u (says_active r) p
observe strict p (ran h (probe_port port) r) = on_probe h.id (answered_ok r) p
observe strict p (ran h (api_versions home port) r) = p
observe strict p (ran h (under_replicated home port) r) = p

-- The latest event stands first.
abbrev pub phase : Bool → List (Event Command) → Phase
phase strict [] = up
phase strict (e ∷ earlier) = observe strict (phase strict earlier) e

-- No unit was stopped too early.
abbrev pub IsIntact : Phase → Type 0
IsIntact broken = ⊥
IsIntact _ = Unit

-- Besides, every unit that was stopped is back.
abbrev pub IsSettled : Bool → Phase → Type 0
IsSettled strict up = Unit
IsSettled strict (active h u) = strict ≡ false
IsSettled strict _ = ⊥

-- The start of the unit was answered with success, and nothing was stopped since.
abbrev pub IsRising : String → String → Phase → Type 0
IsRising h u p = (p ≡ starting h u) ⊎ (p ≡ active h u)

pub IsSettled-IsIntact : (strict : Bool) (p : Phase) → IsSettled strict p → IsIntact p
IsSettled-IsIntact strict up s = tt
IsSettled-IsIntact strict broken s = s
IsSettled-IsIntact strict (stopping h u) s = tt
IsSettled-IsIntact strict (starting h u) s = tt
IsSettled-IsIntact strict (active h u) s = tt

pub on_stop-IsSettled :
    (strict : Bool) (h u : String) (p : Phase)
    → IsSettled strict p
    → on_stop strict h u p ≡ stopping h u
on_stop-IsSettled strict h u up s = refl
on_stop-IsSettled strict h u broken s = absurd s
on_stop-IsSettled strict h u (stopping _ _) s = absurd s
on_stop-IsSettled strict h u (starting _ _) s = absurd s
on_stop-IsSettled strict h u (active _ _) s = rw s

pub on_start_self :
    (h u : String) (done : Bool)
    → on_start h u done (stopping h u) ≡ (if done then starting h u else stopping h u)
on_start_self h u true = simp eq_refl
on_start_self h u false = refl

pub on_active_self :
    (h u : String) (seen : Bool)
    → on_active h u seen (starting h u) ≡ (if seen then active h u else starting h u)
on_active_self h u true = simp eq_refl
on_active_self h u false = refl

pub on_probe_self :
    (h u : String) (reached : Bool)
    → on_probe h reached (active h u) ≡ (if reached then up else active h u)
on_probe_self h u true = simp eq_refl
on_probe_self h u false = refl

abbrev pub At : Bool → Phase → W → Type 0
At strict p w = phase strict w.trace ≡ p

abbrev pub Intact : Bool → W → Type 0
Intact strict w = IsIntact (phase strict w.trace)

abbrev pub Settled : Bool → W → Type 0
Settled strict w = IsSettled strict (phase strict w.trace)
