-- ===== src/Restart/Health.antt =====
-- The steps that bring a unit back, seen by the onlooker of Restart/Phase.
use tantor_v.Prelude.{
  ℕ, zero, suc, String, ◌≡◌, refl, inl, inr, Bool, true, false, ◌&&◌, ◌∷◌, ◌==◌, if◌then◌else◌,
}
use tantor_v.Prelude.Int.{ℤ}
use tantor_v.Prelude.Text.{strip}
use tantor_v.Prelude.Exec.{
  Result, ok, raised, pure, ◌>>◌, Post, Post-both, Triple, Triple-pure, Triple-bind, Triple-if,
  Triple-after,
}
use tantor_v.Models.{Host, Role}
use tantor_v.Remote.{
  ran, Machines, Reply, succeeded, exec_command, sleep, Triple-exec_command, Triple-sleep,
}
use tantor_v.Restart.Defs.{
  Command, start, is_active, probe_port, api_versions, under_replicated, W, is_broker,
  check_service_running, check_kafka_port, check_broker_health, wait_for_isr, check_up,
  await_healthy,
}
use tantor_v.Restart.Phase.{
  Phase, up, stopping, starting, active, observe, phase, on_active, on_probe, on_start, IsIntact,
  IsRising, IsSettled-IsIntact, on_start_self, on_active_self, on_probe_self, At, Intact, Settled,
}

abbrev IsSeen : String → String → Bool → Phase → Type 0
IsSeen h u true p = p ≡ active h u
IsSeen h u false p = IsRising h u p

IsSeen-IsIntact : (h u : String) (b : Bool) (p : Phase) → IsSeen h u b p → IsIntact p
IsSeen-IsIntact h u true p e = rw e tt
IsSeen-IsIntact h u false p (inl e) = rw e tt
IsSeen-IsIntact h u false p (inr e) = rw e tt

on_active-IsSeen :
    (h u : String) (b : Bool) (p : Phase) → IsRising h u p → IsSeen h u b (on_active h u b p)
on_active-IsSeen h u true p (inl e) = rw e (on_active_self h u true)
on_active-IsSeen h u true p (inr e) = rw e refl
on_active-IsSeen h u false p (inl e) = inl (rw e refl)
on_active-IsSeen h u false p (inr e) = inr (rw e refl)

abbrev IsReached : String → String → Bool → Phase → Type 0
IsReached h u true p = p ≡ up
IsReached h u false p = p ≡ active h u

IsReached-IsIntact : (h u : String) (b : Bool) (p : Phase) → IsReached h u b p → IsIntact p
IsReached-IsIntact h u true p e = rw e tt
IsReached-IsIntact h u false p e = rw e tt

on_probe-IsReached :
    (h u : String) (b : Bool) (p : Phase) → p ≡ active h u → IsReached h u b (on_probe h b p)
on_probe-IsReached h u true p e = rw e (on_probe_self h u true)
on_probe-IsReached h u false p e = rw e refl

abbrev pub IsStarted : String → String → Bool → Phase → Type 0
IsStarted h u true p = p ≡ starting h u
IsStarted h u false p = p ≡ stopping h u

IsStarted-IsIntact : (h u : String) (b : Bool) (p : Phase) → IsStarted h u b p → IsIntact p
IsStarted-IsIntact h u true p e = rw e tt
IsStarted-IsIntact h u false p e = rw e tt

on_start-IsStarted :
    (h u : String) (b : Bool) (p : Phase) → p ≡ stopping h u → IsStarted h u b (on_start h u b p)
on_start-IsStarted h u true p e = rw e (on_start_self h u true)
on_start-IsStarted h u false p e = rw e refl

abbrev pub Rising : Bool → String → String → W → Type 0
Rising strict h u w = IsRising h u (phase strict w.trace)

abbrev pub Verdict : Bool → String → String → Bool → W → Type 0
Verdict strict h u true w = Settled strict w
Verdict strict h u false w = Rising strict h u w

module _ (net : Machines Command) (strict : Bool) (host : Host) where
  pub exec_command-Settled :
      (c : Command)
      → ((p : Phase) (r : Result Reply) → observe strict p (ran host c r) ≡ p)
      → Triple (Settled strict) (exec_command net host c) (λ _. Settled strict) (Intact strict)
  exec_command-Settled c same = Triple-exec_command net host c λ w r h.
      let w' : W = record w { trace = ran host c r ∷ w.trace } in
      let h' : Settled strict w' = rw (same (phase strict w.trace) r) h in
      Post-both (Settled strict) (Intact strict) r w' h' (IsSettled-IsIntact strict _ h')

  pub check_broker_health-Triple :
      (role : Role) (home : String) (port : ℤ)
      → Triple
          (Settled strict)
          (check_broker_health net host role home port)
          (λ _. Settled strict)
          (Intact strict)
  unfolding check_broker_health
  check_broker_health-Triple role home port =
      Triple-if (is_broker role) _ _
        (λ _.
          Triple-bind _ _ (exec_command-Settled (api_versions home port) (λ p r. refl))
            λ r. Triple-pure _ (λ w h. h))
        (λ _. Triple-pure _ (λ w h. h))

  pub wait_for_isr-Triple :
      (rounds : ℕ) (home : String) (port : ℤ)
      → Triple
          (Settled strict)
          (wait_for_isr net host rounds home port)
          (λ _. Settled strict)
          (Intact strict)
  unfolding wait_for_isr
  wait_for_isr-Triple zero home port = Triple-pure _ (λ w h. h)
  wait_for_isr-Triple (suc rounds) home port =
      Triple-bind _ _ (exec_command-Settled (under_replicated home port) (λ p r. refl))
        λ r. again (succeeded r && strip r.stdout == "") (wait_for_isr-Triple rounds home port)
    where
      again :
          (b : Bool)
          → Triple
              (Settled strict)
              (wait_for_isr net host rounds home port)
              (λ _. Settled strict)
              (Intact strict)
          → Triple
              (Settled strict)
              (elim b [
                | true ↦ pure true
                | false ↦ sleep 5 >> wait_for_isr net host rounds home port
              ])
              (λ _. Settled strict)
              (Intact strict)
      again true t = Triple-pure _ (λ w h. h)
      again false t = Triple-bind _ _ (Triple-sleep 5 (λ w h. h)) (λ _. t)

  module _ (unit : String) where
    abbrev Seen : Bool → W → Type 0
    Seen b w = IsSeen host.id unit b (phase strict w.trace)

    pub start-Triple :
        Triple
          (At strict (stopping host.id unit))
          (exec_command net host (start unit))
          (λ r w. IsStarted host.id unit (succeeded r) (phase strict w.trace))
          (Intact strict)
    start-Triple = Triple-exec_command net host (start unit) answered
      where
        answered :
            (w : W) (r : Result Reply)
            → At strict (stopping host.id unit) w
            → Post
                (λ r' w'. IsStarted host.id unit (succeeded r') (phase strict w'.trace))
                (Intact strict)
                (r, record w { trace = ran host (start unit) r ∷ w.trace })
        answered w (ok r) h = on_start-IsStarted host.id unit (succeeded r) (phase strict w.trace) h
        answered w (raised e) h =
            IsStarted-IsIntact host.id unit false _
              (on_start-IsStarted host.id unit false (phase strict w.trace) h)

    check_service_running-Triple :
        Triple
          (Rising strict host.id unit)
          (check_service_running net host unit)
          Seen
          (Intact strict)
    unfolding check_service_running
    check_service_running-Triple =
        Triple-bind _ _ (Triple-exec_command net host (is_active unit) answered)
          λ r. Triple-pure _ (λ w h. h)
      where
        answered :
            (w : W) (r : Result Reply)
            → Rising strict host.id unit w
            → Post
                (λ r' w'. Seen (strip r'.stdout == "active") w')
                (Intact strict)
                (r, record w { trace = ran host (is_active unit) r ∷ w.trace })
        answered w (ok r) h =
            on_active-IsSeen host.id unit (strip r.stdout == "active") (phase strict w.trace) h
        answered w (raised e) h =
            IsSeen-IsIntact host.id unit false _
              (on_active-IsSeen host.id unit false (phase strict w.trace) h)

    check_kafka_port-Triple :
        (port : ℤ)
        → Triple
            (At strict (active host.id unit))
            (check_kafka_port net host port)
            (λ b w. IsReached host.id unit b (phase strict w.trace))
            (Intact strict)
    unfolding check_kafka_port
    check_kafka_port-Triple port =
        Triple-bind _ _ (Triple-exec_command net host (probe_port port) answered)
          λ r. Triple-pure _ (λ w h. h)
      where
        answered :
            (w : W) (r : Result Reply)
            → At strict (active host.id unit) w
            → Post
                (λ r' w'. IsReached host.id unit (succeeded r') (phase strict w'.trace))
                (Intact strict)
                (r, record w { trace = ran host (probe_port port) r ∷ w.trace })
        answered w (ok r) h = on_probe-IsReached host.id unit (succeeded r) (phase strict w.trace) h
        answered w (raised e) h =
            IsReached-IsIntact host.id unit false _
              (on_probe-IsReached host.id unit false (phase strict w.trace) h)

    module _ (needs_port : Bool) (weak : needs_port ≡ false → strict ≡ false) where
      IsReached-Verdict :
          (b : Bool) (w : W)
          → IsReached host.id unit b (phase strict w.trace)
          → Verdict strict host.id unit b w
      IsReached-Verdict true w h = rw h tt
      IsReached-Verdict false w h = inr h

      seen_verdict :
          (w : W) → needs_port ≡ false → At strict (active host.id unit) w → Settled strict w
      seen_verdict w e h = rw h (weak e)

      Rising-Intact : (w : W) → Rising strict host.id unit w → Intact strict w
      Rising-Intact w h = IsSeen-IsIntact host.id unit false (phase strict w.trace) h

      check_up-Triple :
          (port : ℤ)
          → Triple
              (Rising strict host.id unit)
              (check_up net host needs_port unit port)
              (Verdict strict host.id unit)
              (Intact strict)
      unfolding check_up
      check_up-Triple port = Triple-bind _ _ check_service_running-Triple look
        where
          look :
              (running : Bool)
              → Triple
                  (Seen running)
                  (if running
                    then (if needs_port then check_kafka_port net host port else pure true)
                    else pure false)
                  (Verdict strict host.id unit)
                  (Intact strict)
          look false = Triple-pure _ (λ w h. h)
          look true =
              Triple-if needs_port _ _
                (λ _.
                  Triple-after _ (λ b w h. IsReached-Verdict b w h) (λ w h. h)
                    (check_kafka_port-Triple port))
                (λ e. Triple-pure _ (λ w h. seen_verdict w e h))

      pub await_healthy-Triple :
          (attempts : ℕ) (port : ℤ)
          → Triple
              (Rising strict host.id unit)
              (await_healthy net host attempts needs_port unit port)
              (Verdict strict host.id unit)
              (Intact strict)
      unfolding await_healthy
      await_healthy-Triple zero port = Triple-pure _ (λ w h. h)
      await_healthy-Triple (suc attempts) port =
          Triple-bind _ _ (Triple-sleep 1 (λ w h. h))
            λ _. Triple-bind _ _ (check_up-Triple port) (again (await_healthy-Triple attempts port))
        where
          again :
              Triple
                (Rising strict host.id unit)
                (await_healthy net host attempts needs_port unit port)
                (Verdict strict host.id unit)
                (Intact strict)
              → (good : Bool)
              → Triple
                  (Verdict strict host.id unit good)
                  (elim good [
                    | true ↦ pure true
                    | false ↦ await_healthy net host attempts needs_port unit port
                  ])
                  (Verdict strict host.id unit)
                  (Intact strict)
          again t true = Triple-pure _ (λ w h. h)
          again t false = t
