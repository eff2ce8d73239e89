-- ===== src/Upgrade/Waits.antt =====
-- services/upgrade_manager.py: the two waits of an upgrade, seen by the onlooker of Upgrade/Stages.
use tantor_v.Prelude.{
  ℕ, zero, suc, ◌+◌, String, ◌≡◌, refl, ◌⊎◌, inl, inr, Bool, true, false, Option, List, ◌∷◌,
  if◌then◌else◌,
}
use tantor_v.Prelude.Exec.{
  Result, ok, raised, pure, ◌>>◌, Post, Triple, Triple-pure, Triple-bind, Triple-then, Triple-if,
  Triple-either, Triple-after, Triple-before,
}
use tantor_v.Models.{Service, Host}
use tantor_v.Remote.{
  Machines, Reply, exec_command, Triple-exec_command, Triple-on_db, Triple-sleep, ran,
}
use tantor_v.Upgrade.Defs.{Command, is_active, listening, under_replicated_quietly, W, says_active}
use tantor_v.Upgrade.Broker.{note_wait, check_up, await_healthy, no_partitions, await_isr}
use tantor_v.Upgrade.Stages.{
  Progress, idle, started, active, observe, progress, IsIntact, shows_listener, on_active_self,
  on_listening_self,
}
use tantor_v.Upgrade.Steps.{HasVersion, In, Failing, Triple-log, Triple-step, Triple-other}

module _ (cluster_id : String) (version : Option String) (net : Machines Command) (svc : Service)
    (host : Host) (done : List String) where
  abbrev pub InV : Progress → W → Type 0
  InV = In cluster_id version

  abbrev pub FailingV : W → Type 0
  FailingV = Failing cluster_id version

  note_wait-Triple :
      (p : Progress) (what : String) (attempt : ℕ)
      → Triple (InV p) (note_wait svc what attempt) (λ _. InV p) FailingV
  note_wait-Triple p what attempt =
      Triple-either _ _ _ (Triple-log cluster_id version p _) (Triple-pure _ (λ w h. h))

  -- Between the start and the sight of the listener.
  abbrev pub Rising : W → Type 0
  Rising w =
      ((progress w.trace ≡ (done, started host.id)) ⊎ (progress w.trace ≡ (done, active host.id)))
      × HasVersion cluster_id version w

  pub Rising-Failing : (w : W) → Rising w → FailingV w
  Rising-Failing w (inl e, v) = (rw e tt, v)
  Rising-Failing w (inr e, v) = (rw e tt, v)

  abbrev Seen : Bool → W → Type 0
  Seen b w = if b then InV (done, active host.id) w else Rising w

  risen :
      (b : Bool) (w : W)
      → progress w.trace ≡ (if b then (done, active host.id) else (done, started host.id))
      → HasVersion cluster_id version w
      → Seen b w
  risen true w e v = (e, v)
  risen false w e v = (inl e, v)

  still_active :
      (b : Bool) (w : W)
      → progress w.trace ≡ (done, active host.id)
      → HasVersion cluster_id version w
      → Seen b w
  still_active true w e v = (e, v)
  still_active false w e v = (inr e, v)

  look-Triple : Triple Rising (exec_command net host is_active) (λ r. Seen (says_active r)) FailingV
  look-Triple = Triple-exec_command net host is_active answer
    where
      answer :
          (w : W) (r : Result Reply)
          → Rising w
          → Post
              (λ r'. Seen (says_active r'))
              FailingV
              (r, record w { trace = ran host is_active r ∷ w.trace })
      answer w (ok r) (inl e, v) =
          let w' : W = record w { trace = ran host is_active (ok r) ∷ w.trace } in
          risen (says_active r) w' (rw e (on_active_self host.id done (says_active r))) v
      answer w (ok r) (inr e, v) =
          let w' : W = record w { trace = ran host is_active (ok r) ∷ w.trace } in
          still_active (says_active r) w' (rw e refl) v
      answer w (raised x) (inl e, v) = (rw e tt, v)
      answer w (raised x) (inr e, v) = (rw e tt, v)

  abbrev pub Verdict : Bool → W → Type 0
  Verdict b w = if b then InV (host.id ∷ done, idle) w else Rising w

  heard :
      (b : Bool) (w : W)
      → InV (if b then (host.id ∷ done, idle) else (done, active host.id)) w
      → Verdict b w
  heard true w h = h
  heard false w h = (inr h.0, h.1)

  listen-Triple :
      Triple
        (InV (done, active host.id))
        (exec_command net host listening)
        (λ r. Verdict (shows_listener r))
        FailingV
  listen-Triple =
      Triple-after _ (λ r w h. heard (shows_listener r) w h) (λ w h. h)
        (Triple-step cluster_id version net host listening (done, active host.id)
          (host.id ∷ done, idle) shows_listener
          (λ r. on_listening_self host.id done (shows_listener r)) (λ e. refl) tt)

  check_up-Triple : Triple Rising (check_up svc net host) Verdict FailingV
  unfolding check_up
  check_up-Triple = Triple-bind _ _ look-Triple λ r.
      Triple-if (says_active r) _ _
        (λ e.
          Triple-before (λ w h. rw e at h)
            (Triple-bind _ _ listen-Triple (λ p. Triple-pure _ (λ w h. h))))
        (λ e. Triple-pure _ (λ w h. rw e at h))

  -- What is logged during a wait, for a predicate that does not look at the log.
  wait-Triple :
      (what : String) (attempt : ℕ)
      → Triple Rising (note_wait svc what attempt) (λ _. Rising) FailingV
  wait-Triple what attempt =
      Triple-either _ _ _ (Triple-on_db _ (λ w h. h)) (Triple-pure _ (λ w h. h))

  pub await_healthy-Triple :
      (rounds attempt : ℕ)
      → Triple Rising (await_healthy svc net host rounds attempt) Verdict FailingV
  unfolding await_healthy
  await_healthy-Triple zero attempt = Triple-pure _ (λ w h. h)
  await_healthy-Triple (suc rounds) attempt =
      Triple-then (Triple-sleep 5 (λ w h. h))
        (Triple-bind _ _ check_up-Triple (again (await_healthy-Triple rounds (attempt + 1))))
    where
      again :
          Triple Rising (await_healthy svc net host rounds (attempt + 1)) Verdict FailingV
          → (b : Bool)
          → Triple
              (Verdict b)
              (elim b [
                | true ↦ pure true
                | false ↦
                    note_wait svc "Still waiting" attempt
                    >> await_healthy svc net host rounds (attempt + 1)
              ])
              Verdict
              FailingV
      again t true = Triple-pure _ (λ w h. h)
      again t false = Triple-then (wait-Triple "Still waiting" attempt) t

  pub await_isr-Triple :
      (p : Progress) (intact : IsIntact p)
      (same : (r : Result Reply) → observe p (ran host under_replicated_quietly r) ≡ p)
      (rounds attempt : ℕ)
      → Triple (InV p) (await_isr svc net host rounds attempt) (λ _. InV p) FailingV
  unfolding await_isr
  await_isr-Triple p intact same zero attempt = Triple-pure _ (λ w h. h)
  await_isr-Triple p intact same (suc rounds) attempt = Triple-then (Triple-sleep 5 (λ w h. h)) (
      Triple-bind _ _
        (Triple-other cluster_id version net host under_replicated_quietly p same intact)
        λ r.
          again (no_partitions svc net host r)
            (await_isr-Triple p intact same rounds (attempt + 1)))
    where
      again :
          (b : Bool)
          → Triple (InV p) (await_isr svc net host rounds (attempt + 1)) (λ _. InV p) FailingV
          → Triple
              (InV p)
              (elim b [
                | true ↦ pure true
                | false ↦
                    note_wait svc "ISR recovery in progress" attempt
                    >> await_isr svc net host rounds (attempt + 1)
              ])
              (λ _. InV p)
              FailingV
      again true t = Triple-pure _ (λ w h. h)
      again false t = Triple-then (note_wait-Triple p "ISR recovery in progress" attempt) t
