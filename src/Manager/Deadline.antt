-- ===== src/Manager/Deadline.antt =====
-- services/cluster_manager.py: the wait for a service's ports ends.
use tantor_v.Prelude.{
  ℕ, zero, suc, ◌+◌, ◌*◌, ◌<◌, ◌≤◌, ◌≡◌, ◌≢◌, refl, ◌⊎◌, inl, inr, Bool, true, false, List, [], ◌∷◌,
  arith, leb, leb→le,
}
use tantor_v.Prelude.Int.{ℤ}
use tantor_v.Prelude.Exec.{
  Result, ok, raised, pure, Post, ◌>>=◌, ◌>>◌, Triple, Triple-pure, Triple-bind, Triple-if,
  Triple-before, Triple-fact, Triple-either,
}
use tantor_v.Models.{Host}
use tantor_v.Remote.{
  Event, ran, slept, Machines, Reply, exec_command, sleep, now, Triple-exec_command, Triple-sleep,
}
use tantor_v.Ports.Listening.{Holders, list_listening}
use tantor_v.Manager.Ssh.{
  Command, ports, W, Waited, released, out_of_fuel, held, await_released, wait_ports_released,
  is_free,
}

-- What is assumed of `time.time()` and `time.sleep`: the clock does not go back, and a sleep takes
-- at least its seconds.
abbrev pub IsClock : Machines Command → Type 0
IsClock net =
    ((e : Event Command) (t : List (Event Command)) → net.clock t ≤ net.clock (e ∷ t))
    × ((n : ℕ) (t : List (Event Command)) → net.clock t + n * 1000 ≤ net.clock (slept n ∷ t))

-- The wait ended with an answer.
abbrev pub HasEnded : Waited → Type 0
HasEnded waited = (waited ≡ released) ⊎ ((h : Holders) × (waited ≡ held h))

module _ (net : Machines Command) (laws : IsClock net) (host : Host) where
  abbrev After : ℕ → W → Type 0
  After t w = t ≤ net.clock w.trace

  exec_command-After :
      (t : ℕ) (c : Command)
      → Triple (After t) (exec_command net host c) (λ _. After t) (λ _. Unit {0})
  exec_command-After t c = Triple-exec_command net host c (λ w r h. later w r h)
    where
      later :
          (w : W) (r : Result Reply)
          → After t w
          → Post (λ _. After t) (λ _. Unit {0}) (r, record w { trace = ran host c r ∷ w.trace })
      later w (ok r) h = let l = laws.0 (ran host c (ok r)) w.trace in omega arith
      later w (raised e) h = tt

  list_listening-After :
      (t : ℕ) (wanted : List ℤ)
      → Triple (After t) (list_listening net ports host wanted) (λ _. After t) (λ _. Unit {0})
  unfolding list_listening
  list_listening-After t wanted = Triple-bind _ _ (exec_command-After t _) λ r.
      Triple-either _ _ _ (Triple-pure _ (λ w h. h))
        (Triple-bind _ _ (exec_command-After t _) (λ r2. Triple-pure _ (λ w h. h)))

  sleep-After : (t : ℕ) → Triple (After t) (sleep 1) (λ _. After (t + 1000)) (λ _. Unit {0})
  sleep-After t = Triple-sleep 1 (λ w h. let l = laws.1 1 w.trace in omega arith)

  now-After : (t : ℕ) → Triple (After t) (now net) (λ t' w. (t ≤ t') × After t' w) (λ _. Unit {0})
  unfolding now
  now-After t = record { at = λ w h. (h, omega arith) }

  await_released-HasEnded :
      (fuel deadline t : ℕ) (wanted : List ℤ) (seen : Holders)
      → deadline < t + fuel * 1000
      → Triple
          (After t)
          (await_released net host fuel deadline wanted seen)
          (λ r _. HasEnded r)
          (λ _. Unit {0})
  unfolding await_released
  await_released-HasEnded zero deadline t wanted seen enough = Triple-bind _ _ (now-After t) λ t'.
      Triple-if (leb t' deadline) _ _ (λ early. Triple-pure _ (λ w h. elim (late t' h.0 early) [ ]))
        (λ _. Triple-pure _ (λ w h. inr (seen, refl)))
    where
      late : (t' : ℕ) → t ≤ t' → leb t' deadline ≡ true → ⊥
      late t' h early = let l = leb→le t' deadline early in omega arith
  await_released-HasEnded (suc fuel) deadline t wanted seen enough =
      Triple-bind _ _ (now-After t) λ t'. Triple-fact λ h.
        round t' (leb t' deadline) h (λ listening.
          await_released-HasEnded fuel deadline (t' + 1000) wanted listening (omega arith))
    where
      round :
          (t' : ℕ) (b : Bool)
          → t ≤ t'
          → ((listening : Holders)
              → Triple
                  (After (t' + 1000))
                  (await_released net host fuel deadline wanted listening)
                  (λ r _. HasEnded r)
                  (λ _. Unit {0}))
          → Triple
              (After t')
              (elim b [
                | false ↦ pure (held seen)
                | true ↦ list_listening net ports host wanted >>= λ listening.
                    elim (is_free listening) [
                      | true ↦ pure released
                      | false ↦ sleep 1 >> await_released net host fuel deadline wanted listening
                    ]
              ])
              (λ r _. HasEnded r)
              (λ _. Unit {0})
      round t' false h again = Triple-pure _ (λ w h. inr (seen, refl))
      round t' true h again =
          Triple-bind _ _ (list_listening-After t' wanted)
            λ listening. looked listening (is_free listening) (again listening)
        where
          looked :
              (listening : Holders) (b : Bool)
              → Triple
                  (After (t' + 1000))
                  (await_released net host fuel deadline wanted listening)
                  (λ r _. HasEnded r)
                  (λ _. Unit {0})
              → Triple
                  (After t')
                  (elim b [
                    | true ↦ pure released
                    | false ↦ sleep 1 >> await_released net host fuel deadline wanted listening
                  ])
                  (λ r _. HasEnded r)
                  (λ _. Unit {0})
          looked listening true u = Triple-pure _ (λ w h. inl refl)
          looked listening false u = Triple-bind _ _ (sleep-After t') (λ _. u)

  wait_ports_released-HasEnded :
      (wanted : List ℤ)
      → Triple
          (λ _. Unit {0})
          (wait_ports_released net host wanted)
          (λ r _. HasEnded r)
          (λ _. Unit {0})
  unfolding wait_ports_released
  wait_ports_released-HasEnded [] = Triple-pure _ (λ w h. inl refl)
  wait_ports_released-HasEnded (p ∷ rest) =
      Triple-before (λ w _. omega arith)
        (Triple-bind _ _ (now-After 0) λ t.
          Triple-before (λ w h. h.1)
            (await_released-HasEnded 21 (t + 20 * 1000) t (p ∷ rest) [] (omega arith)))

-- If the clock does not go back and a sleep takes its time, then, whatever the machine answers, the
-- wait of twenty seconds is over before its 21 rounds are.
pub wait_ports_released-terminates :
    (net : Machines Command) (laws : IsClock net) (host : Host) (wanted : List ℤ) (w : W)
    → (wait_ports_released net host wanted w).0 ≢ ok out_of_fuel
wait_ports_released-terminates net laws host wanted w =
    in_time (wait_ports_released net host wanted w)
      ((wait_ports_released-HasEnded net laws host wanted).at w tt)
  where
    clear : HasEnded out_of_fuel → ⊥
    clear (inl e) = cc
    clear (inr (h, e)) = cc

    in_time :
        (x : Result Waited × W) → Post (λ r _. HasEnded r) (λ _. Unit {0}) x → x.0 ≢ ok out_of_fuel
    in_time (ok released, w') h e = cc
    in_time (ok out_of_fuel, w') h e = clear h
    in_time (ok (held listening), w') h e = cc
    in_time (raised f, w') h e = cc
