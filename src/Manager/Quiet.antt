-- ===== src/Manager/Quiet.antt =====
-- services/cluster_manager.py: when `_stop_unit` reports a stop.
use tantor_v.Prelude.{
  String, ◌≡◌, refl, sym, Bool, true, false, ◌&&◌, not, List, ◌∷◌, [], ◌==◌, arith, Bool-cases, inl,
  inr, eq_iff,
}
use tantor_v.Prelude.Text.{strip}
use tantor_v.Prelude.Exec.{
  Result, ok, raised, Exec, Post, Triple, Triple-pure, Triple-bind, Triple-if, Triple-before,
  Triple-either,
}
use tantor_v.Models.{Host}
use tantor_v.Remote.{Event, ran, Machines, Reply, Triple-exec_command}
use tantor_v.Manager.Units.{is_in}
use tantor_v.Manager.Ssh.{
  Command, is_active, W, is_alive, unit_state, settle_stop, stop_verdict, stop_unit,
}

-- The latest event is an answer of `systemctl is-active unit` on the host, and the state in it is not
-- one of a unit that runs, starts or stops.
abbrev pub IsQuiet : Host → String → List (Event Command) → Type 0
IsQuiet host unit trace =
    (r : Reply) × (before : List (Event Command)) × (trace
      ≡ ran host (is_active unit) (ok r) ∷ before)
    × (is_alive (strip r.stdout) ≡ false)

module _ {A : Type 0} (m : Exec W A) where
  Post-any : (x : Result A × W) → Post (λ _ _. Unit {0}) (λ _. Unit {0}) x
  Post-any (ok a, s) = tt
  Post-any (raised e, s) = tt

  -- Nothing is promised of any code.
  any-Triple : Triple (λ _. Unit {0}) m (λ _ _. Unit {0}) (λ _. Unit {0})
  any-Triple = record { at = λ w h. Post-any (m w) }

module _ (net : Machines Command) (host : Host) (unit : String) where
  -- The latest answer is of this unit, and it is the state that was read.
  Seen : String → W → Type 0
  Seen state w =
      (r : Reply) × (before : List (Event Command)) × (w.trace
        ≡ ran host (is_active unit) (ok r) ∷ before)
      × (state ≡ strip r.stdout)

  unit_state-Triple : Triple (λ _. Unit {0}) (unit_state net host unit) Seen (λ _. Unit {0})
  unfolding unit_state Seen
  unit_state-Triple =
      Triple-bind
        {R = λ r w.
          (before : List (Event Command)) × (w.trace ≡ ran host (is_active unit) (ok r) ∷ before)}
        _ _ (Triple-exec_command net host (is_active unit) (λ w r h. answered w r))
        λ r. Triple-pure _ (λ w h. (r, h.0, h.1, refl))
    where
      answered :
          (w : W) (r : Result Reply)
          → Post
              (λ r w.
                (before : List (Event Command)) × (w.trace
                  ≡ ran host (is_active unit) (ok r) ∷ before))
              (λ _. Unit {0})
              (r, record w { trace = ran host (is_active unit) r ∷ w.trace })
      answered w (ok r) = (w.trace, refl)
      answered w (raised e) = tt

  abbrev WhenTrue : Bool × String → W → Type 0
  WhenTrue r w = r.0 ≡ true → IsQuiet host unit w.trace

  Seen-IsQuiet :
      (state : String) (w : W) → Seen state w → is_alive state ≡ false → IsQuiet host unit w.trace
  unfolding Seen
  Seen-IsQuiet state w (r, before, at, same) quiet = (r, before, at, rw (sym same) quiet)

  stop_verdict-Triple : Triple (λ _. Unit {0}) (stop_verdict net host unit) WhenTrue (λ _. Unit {0})
  unfolding stop_verdict
  stop_verdict-Triple = Triple-bind _ _ unit_state-Triple λ state.
      Triple-if (is_alive state) _ _ (λ alive. Triple-pure _ (λ w h t. elim (false_true t) [ ]))
        (λ quiet. Triple-pure _ (λ w h t. Seen-IsQuiet state w h quiet))
    where
      false_true : false ≡ true → ⊥
      false_true e = ground arith

  settle_stop-Triple :
      (remove : Bool)
      → Triple (λ _. Unit {0}) (settle_stop net host unit remove) WhenTrue (λ _. Unit {0})
  unfolding settle_stop
  settle_stop-Triple remove = Triple-bind _ _ (any-Triple _) λ broke.
      Triple-bind _ _ (any-Triple _) λ _.
        Triple-bind _ _ (any-Triple _)
          λ _. Triple-bind _ _ (any-Triple _) (λ _. stop_verdict-Triple)

  -- `state in ("", "inactive", "unknown")`
  absent-quiet :
      (state : String)
      → is_in state ("" ∷ "inactive" ∷ "unknown" ∷ []) ≡ true
      → is_alive state ≡ false
  absent-quiet state h = elim (Bool-cases ("" == state)) [
    | inl e ↦ let s : "" ≡ state = (eq_iff "" state).0 e in rw (sym s) refl
    | inr n ↦ elim (Bool-cases ("inactive" == state)) [
      | inl e ↦ let s : "inactive" ≡ state = (eq_iff "inactive" state).0 e in rw (sym s) refl
      | inr n2 ↦ elim (Bool-cases ("unknown" == state)) [
        | inl e ↦ let s : "unknown" ≡ state = (eq_iff "unknown" state).0 e in rw (sym s) refl
        | inr n3 ↦ ground arith
      ]
    ]
  ]

  stop_unit-Triple :
      (remove : Bool)
      → Triple (λ _. Unit {0}) (stop_unit net host unit remove) WhenTrue (λ _. Unit {0})
  unfolding stop_unit
  stop_unit-Triple remove = Triple-bind _ _ (any-Triple _) λ exists.
      Triple-bind _ _ unit_state-Triple λ state.
        Triple-if (not exists && is_in state ("" ∷ "inactive" ∷ "unknown" ∷ [])) _ _
          (λ gone.
            Triple-pure _ (λ w h t. Seen-IsQuiet state w h (absent-quiet state (ground arith))))
          (λ there.
            Triple-before (λ _ _. tt)
              (Triple-bind _ _ (any-Triple _) λ r.
                Triple-either _ _ _ (Triple-pure _ (λ w h t. elim (false_true t) [ ]))
                  (settle_stop-Triple remove)))
    where
      false_true : false ≡ true → ⊥
      false_true e = ground arith

when_true :
    (host : Host) (unit message : String) (x : Result (Bool × String) × W) (w' : W)
    → Post (λ (r : Bool × String) w. r.0 ≡ true → IsQuiet host unit w.trace) (λ _. Unit {0}) x
    → x ≡ (ok (true, message), w')
    → IsQuiet host unit w'.trace
when_true host unit message x w' h e =
    let h' : Post (λ (r : Bool × String) w. r.0 ≡ true → IsQuiet host unit w.trace) (λ _. Unit {0})
        (ok (true, message), w') =
      rw e at h in
    h' refl

-- However the host answers, when `_stop_unit` reports success, the last that it learned is a state of
-- the unit that is not "active", "activating" or "deactivating".
pub stop_unit-IsQuiet :
    (net : Machines Command) (host : Host) (unit message : String) (remove_unit : Bool) (w w' : W)
    → stop_unit net host unit remove_unit w ≡ (ok (true, message), w')
    → IsQuiet host unit w'.trace
stop_unit-IsQuiet net host unit message remove_unit w w' e =
    when_true host unit message (stop_unit net host unit remove_unit w) w'
      ((stop_unit-Triple net host unit remove_unit).at w tt) e
