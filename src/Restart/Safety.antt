-- ===== src/Restart/Safety.antt =====
-- Every step of services/rolling_restart_manager.py, seen by the onlooker of Restart/Phase.
use tantor_v.Prelude.{ℕ, zero, suc, String, ◌≡◌, refl, ap, ◌∙◌, Bool, true, false, ◌∷◌, ◌==◌}
use tantor_v.Prelude.Text.{strip}
use tantor_v.Prelude.Exec.{
  Result, pure, ◌>>◌, Triple, Post-both, Triple-pure, Triple-bind, Triple-if,
}
use tantor_v.Models.{Host}
use tantor_v.Remote.{
  ran, Machines, Reply, succeeded, exec_command, sleep, Triple-exec_command, Triple-on_db,
  Triple-sleep,
}
use tantor_v.Restart.Defs.{Command, stop, is_active, W, await_stopped, shut_down}
use tantor_v.Restart.Phase.{
  Phase, stopping, observe, phase, IsIntact, on_stop-IsSettled, At, Intact, Settled,
}

module _ (net : Machines Command) (strict : Bool) (host : Host) where
  At-Intact : (q : Phase) (w : W) → IsIntact q → At strict q w → Intact strict w
  At-Intact q w i h = rw h i

  -- A command that the onlooker does not read a change from.
  keep-Triple :
      (c : Command) (q : Phase)
      → IsIntact q
      → ((r : Result Reply) → observe strict q (ran host c r) ≡ q)
      → Triple (At strict q) (exec_command net host c) (λ _. At strict q) (Intact strict)
  keep-Triple c q i same = Triple-exec_command net host c λ w r h.
      let w' : W = record w { trace = ran host c r ∷ w.trace } in
      let h' : At strict q w' = ap (λ p. observe strict p (ran host c r)) h ∙ same r in
      Post-both _ _ r w' h' (At-Intact q w' i h')

  module _ (unit : String) where
    stop-Triple :
        Triple
          (Settled strict)
          (exec_command net host (stop unit))
          (λ _. At strict (stopping host.id unit))
          (Intact strict)
    stop-Triple = Triple-exec_command net host (stop unit) λ w r h.
        let w' : W = record w { trace = ran host (stop unit) r ∷ w.trace } in
        let h' : At strict (stopping host.id unit) w' =
          on_stop-IsSettled strict host.id unit (phase strict w.trace) h in
        Post-both _ _ r w' h' (At-Intact (stopping host.id unit) w' tt h')

    pub await_stopped-Triple :
        (rounds : ℕ)
        → Triple
            (At strict (stopping host.id unit))
            (await_stopped net host rounds unit)
            (λ _. At strict (stopping host.id unit))
            (Intact strict)
    unfolding await_stopped
    await_stopped-Triple zero = Triple-pure tt (λ w h. h)
    await_stopped-Triple (suc rounds) =
        Triple-bind _ _ (keep-Triple (is_active unit) (stopping host.id unit) tt (λ r. refl))
          λ r. again (strip r.stdout == "active") (await_stopped-Triple rounds)
      where
        again :
            (b : Bool)
            → Triple
                (At strict (stopping host.id unit))
                (await_stopped net host rounds unit)
                (λ _. At strict (stopping host.id unit))
                (Intact strict)
            → Triple
                (At strict (stopping host.id unit))
                (elim b [ true ↦ sleep 1 >> await_stopped net host rounds unit | false ↦ pure tt ])
                (λ _. At strict (stopping host.id unit))
                (Intact strict)
        again true t = Triple-bind _ _ (Triple-sleep 1 (λ w h. h)) (λ _. t)
        again false t = Triple-pure tt (λ w h. h)

    pub shut_down-Triple :
        Triple
          (Settled strict)
          (shut_down net host unit)
          (λ _. At strict (stopping host.id unit))
          (Intact strict)
    unfolding shut_down
    shut_down-Triple = Triple-bind _ _ (Triple-on_db _ (λ w h. h)) λ _.
        Triple-bind _ _ stop-Triple λ r.
          Triple-bind _ _
            (Triple-if (succeeded r) _ _ (λ _. Triple-pure tt (λ w h. h))
              (λ _. Triple-on_db _ (λ w h. h)))
            λ _.
              Triple-bind _ _ (Triple-on_db _ (λ w h. h))
                λ _. Triple-bind _ _ (await_stopped-Triple 30) λ _. Triple-on_db _ (λ w h. h)
