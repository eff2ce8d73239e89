-- ===== src/Restart/Live.antt =====
-- services/rolling_restart_manager.py: with machines that do what they are told, a rolling restart
-- completes.
use tantor_v.Prelude.{
  false≢true, ℕ, zero, suc, All, ◌+◌, ◌≤◌, String, ◌≡◌, ◌≢◌, refl, sym, ◌∙◌, Bool, true, false,
  ◌&&◌, Option, none, some, List, [], ◌∷◌, ◌==◌, eq_refl, arith, if◌then◌else◌,
}
use tantor_v.Prelude.Int.{ℤ}
use tantor_v.Prelude.Text.{strip}
use tantor_v.Prelude.Exec.{
  ok, Exec, pure, ◌>>=◌, ◌>>◌, Triple, Triple-pure, Triple-bind, Triple-then, Triple-if,
  Triple-either, Triple-try, Triple-before, Triple-fact,
}
use tantor_v.Models.{Cluster, Service, Host, Role, find_host}
use tantor_v.ClusterPaths.{Settings}
use tantor_v.Remote.{
  Event, ran, slept, Machines, Reply, succeeded, exec_command, connect, sleep, on_db, Triple-on_db,
  Triple-sleep,
}
use tantor_v.Restart.Defs.{
  Command, RestartDb, cluster_listener_port, start, stop, is_active, probe_port, W, is_broker,
  check_service_running, check_kafka_port, check_broker_health, wait_for_isr, await_stopped,
  shut_down, check_up, await_healthy,
}
use tantor_v.Restart.Managed.{
  next, unit_for_service, recover_isr, conclude, bring_up, restart_connected, restart_service,
}

-- What the latest start or stop of a unit on a host told it: to run or not.
abbrev pub told : String → String → List (Event Command) → Option Bool
told id unit [] = none
told id unit (ran host (stop u) r ∷ t) =
    if host.id == id && u == unit then some false else told id unit t
told id unit (ran host (start u) r ∷ t) =
    if host.id == id && u == unit then some true else told id unit t
told id unit (_ ∷ t) = told id unit t

-- The seconds slept since the latest start.
abbrev pub waited : List (Event Command) → ℕ
waited [] = 0
waited (ran _ (start _) _ ∷ t) = 0
waited (slept n ∷ t) = n + waited t
waited (_ ∷ t) = waited t

-- A unit that was told to run, a minute ago or more.
abbrev pub IsDue : String → String → List (Event Command) → Type 0
IsDue id unit t = (told id unit t ≡ some true) × (60 ≤ waited t)

-- The host of a service can be reached, answers every command and starts the unit of the service,
-- which is active a minute after a start, with the port open if the service is a broker, unless it was
-- stopped since. Nothing is said of a unit that was stopped, or started just now.
pub record Obeys (net : Machines Command) (cluster : Cluster) (svc : Service) (host : Host)
    : Type 0 where
  pub connects : (t : List (Event Command)) → net.connect t host ≡ none
  pub answers : (t : List (Event Command)) (c : Command) → (r : Reply) × (net.run t host c ≡ ok r)
  pub starts :
      (t : List (Event Command)) (r : Reply)
      → net.run t host (start (unit_for_service cluster svc)) ≡ ok r
      → succeeded r ≡ true
  pub shows :
      (t : List (Event Command)) (r : Reply)
      → IsDue host.id (unit_for_service cluster svc) t
      → net.run t host (is_active (unit_for_service cluster svc)) ≡ ok r
      → (strip r.stdout == "active") ≡ true
  pub accepts :
      (t : List (Event Command)) (r : Reply)
      → is_broker svc.role ≡ true
      → IsDue host.id (unit_for_service cluster svc) t
      → net.run t host (probe_port (cluster_listener_port cluster)) ≡ ok r
      → succeeded r ≡ true

-- Every one of the services has such a host, or none.
abbrev pub AreObedient : Machines Command → Cluster → List Host → List Service → Type 0
AreObedient net cluster hosts services =
    All (λ s. (h : Host) → find_host s.host_id hosts ≡ some h → Obeys net cluster s h) services

-- The code returns, with a value that is as `R` says.
abbrev pub Sure : {A : Type 0} → Exec W A → (A → Type 0) → Type 0
Sure m R = Triple (λ w. Unit) m (λ a w. R a) (λ w. ⊥)

abbrev pub Any : {A : Type 0} → A → Type 0
Any a = Unit

pub db_lem : (f : RestartDb → RestartDb) → Sure (on_db f) Any
db_lem f = Triple-on_db f (λ w h. tt)

-- A fact about a value, taken out of the triple that follows.
pub Sure-bind :
    {A B : Type 0} {Q : A → Type 0} {R : B → Type 0} {m : Exec W A} {f : A → Exec W B}
    → Sure m Q
    → ((a : A) → Q a → Sure (f a) R)
    → Sure (m >>= f) R
Sure-bind t u = Triple-bind _ _ t (λ a. record { at = λ w q. (u a q).at w tt })

module _ (net : Machines Command) (cluster : Cluster) (svc : Service) (host : Host)
    (obey : Obeys net cluster svc host) where
  abbrev unit : String
  unit = unit_for_service cluster svc

  abbrev port : ℤ
  port = cluster_listener_port cluster

  abbrev needs_port : Bool
  needs_port = is_broker svc.role

  exec_command-Sure : (c : Command) → Sure (exec_command net host c) Any
  unfolding exec_command
  exec_command-Sure c = record { at = λ w p. rw (obey.answers w.trace c).1 tt }

  connect-Sure : Sure (connect net host) Any
  unfolding connect
  connect-Sure = record { at = λ w p. rw (obey.connects w.trace) tt }

  -- The unit was told to run, and `more` seconds from now it must.
  abbrev IsRising : ℕ → W → Type 0
  IsRising more w = (told host.id unit w.trace ≡ some true) × (60 ≤ waited w.trace + more)

  exec_command-start :
      Triple
        (λ w. Unit)
        (exec_command net host (start unit))
        (λ r w. (succeeded r ≡ true) × IsRising 60 w)
        (λ w. ⊥)
  unfolding exec_command
  exec_command-start = record {
    at = λ w p.
        let x = obey.answers w.trace (start unit) in
        rw x.1
          (obey.starts w.trace x.0 x.1, (rw (eq_refl host.id, eq_refl unit) refl, omega arith));
  }

  -- What a look leaves, and that it finds the unit up when it is due.
  abbrev IsSeen : ℕ → Bool → W → Type 0
  IsSeen n up w = IsRising n w × (n ≡ 0 → up ≡ true)

  due_lem : (n : ℕ) (w : W) → IsRising n w → n ≡ 0 → IsDue host.id unit w.trace
  due_lem n w h e = (h.0, omega (arith, h.1, e))

  check_service_running-IsSeen :
      (n : ℕ) → Triple (IsRising n) (check_service_running net host unit) (IsSeen n) (λ w. ⊥)
  unfolding check_service_running exec_command
  check_service_running-IsSeen n =
      Triple-bind _ _
        (record {
          at = λ w h.
              let x = obey.answers w.trace (is_active unit) in
              rw x.1 (h, λ e. obey.shows w.trace x.0 (due_lem n w h e) x.1);
        })
        (λ r. Triple-pure _ (λ w h. h))

  check_kafka_port-IsSeen :
      (n : ℕ)
      → needs_port ≡ true
      → Triple (IsRising n) (check_kafka_port net host port) (IsSeen n) (λ w. ⊥)
  unfolding check_kafka_port exec_command
  check_kafka_port-IsSeen n needed =
      Triple-bind _ _
        (record {
          at = λ w h.
              let x = obey.answers w.trace (probe_port port) in
              rw x.1 (h, λ e. obey.accepts w.trace x.0 needed (due_lem n w h e) x.1);
        })
        (λ r. Triple-pure _ (λ w h. h))

  check_up-IsSeen :
      (n : ℕ) → Triple (IsRising n) (check_up net host needs_port unit port) (IsSeen n) (λ w. ⊥)
  unfolding check_up
  check_up-IsSeen n = Triple-bind _ _ (check_service_running-IsSeen n) λ running.
      Triple-if running _ _
        (λ _.
          Triple-before (λ w h. h.0)
            (Triple-if needs_port _ _ (check_kafka_port-IsSeen n)
              (λ _. Triple-pure _ (λ w h. (h, λ e. refl)))))
        (λ down. Triple-pure _ (λ w h. (h.0, λ e. sym down ∙ h.1 e)))

  -- The code after a look, where a unit that is due needs no further one.
  again_lem :
      (n : ℕ) (m : Exec W Bool) (up : Bool)
      → (n ≢ 0 → Triple (IsRising n) m (λ b w. b ≡ true) (λ w. ⊥))
      → Triple (IsSeen n up) (elim up [ true ↦ pure true | false ↦ m ]) (λ b w. b ≡ true) (λ w. ⊥)
  again_lem n m true t = Triple-pure _ (λ w h. refl)
  again_lem n m false t = record { at = λ w h. (t (λ e. false≢true (h.1 e))).at w h.0 }

  -- With a round for each of the seconds that are left, the unit is found up.
  await_healthy-Sure :
      (attempts : ℕ)
      → attempts ≢ 0
      → Triple
          (IsRising attempts)
          (await_healthy net host attempts needs_port unit port)
          (λ up w. up ≡ true)
          (λ w. ⊥)
  unfolding await_healthy
  await_healthy-Sure zero some_left = absurd (some_left refl)
  await_healthy-Sure (suc attempts) some_left =
      Triple-then (Triple-sleep {R = λ _. IsRising attempts} 1 (λ w h. (h.0, omega (arith, h.1)))) (
        Triple-bind _ _ (check_up-IsSeen attempts)
          λ up. again_lem attempts _ up (await_healthy-Sure attempts))

  await_stopped-Sure : (rounds : ℕ) → Sure (await_stopped net host rounds unit) Any
  unfolding await_stopped
  await_stopped-Sure zero = Triple-pure _ (λ w h. tt)
  await_stopped-Sure (suc rounds) =
      Sure-bind (exec_command-Sure (is_active unit))
        λ r e. again (strip r.stdout == "active") (await_stopped-Sure rounds)
    where
      again :
          (b : Bool)
          → Sure (await_stopped net host rounds unit) Any
          → Sure
              (elim b [ true ↦ sleep 1 >> await_stopped net host rounds unit | false ↦ pure tt ])
              Any
      again true t = Triple-then (Triple-sleep 1 (λ w h. tt)) t
      again false t = Triple-pure _ (λ w h. tt)

  shut_down-Sure : Sure (shut_down net host unit) Any
  unfolding shut_down
  shut_down-Sure = Triple-then (db_lem _) (
      Sure-bind (exec_command-Sure (stop unit)) λ r e.
        Triple-then (Triple-either _ _ _ (Triple-pure _ (λ w h. tt)) (db_lem _))
          (Triple-then (db_lem _) (Triple-then (await_stopped-Sure 30) (db_lem _))))

  check_broker_health-Sure :
      (role : Role) (home : String) (at_port : ℤ)
      → Sure (check_broker_health net host role home at_port) Any
  unfolding check_broker_health
  check_broker_health-Sure role home at_port =
      Triple-if (is_broker role) _ _
        (λ _. Sure-bind (exec_command-Sure _) (λ r e. Triple-pure _ (λ w h. tt)))
        (λ _. Triple-pure _ (λ w h. tt))

  wait_for_isr-Sure :
      (rounds : ℕ) (home : String) (at_port : ℤ)
      → Sure (wait_for_isr net host rounds home at_port) Any
  unfolding wait_for_isr
  wait_for_isr-Sure zero home at_port = Triple-pure _ (λ w h. tt)
  wait_for_isr-Sure (suc rounds) home at_port =
      Sure-bind (exec_command-Sure _)
        λ r e. again (succeeded r && strip r.stdout == "") (wait_for_isr-Sure rounds home at_port)
    where
      again :
          (b : Bool)
          → Sure (wait_for_isr net host rounds home at_port) Any
          → Sure
              (elim b [
                | true ↦ pure true
                | false ↦ sleep 5 >> wait_for_isr net host rounds home at_port
              ])
              Any
      again true t = Triple-pure _ (λ w h. tt)
      again false t = Triple-then (Triple-sleep 5 (λ w h. tt)) t

  module _ (settings : Settings) where
    recover_isr-Sure : Sure (recover_isr net settings cluster svc host) Any
    unfolding recover_isr
    recover_isr-Sure =
        Triple-if (is_broker svc.role) _ _
          (λ _. Triple-then (db_lem _) (Sure-bind (wait_for_isr-Sure 24 _ _) (λ b h. db_lem _)))
          (λ _. Triple-pure _ (λ w h. tt))

    conclude-Sure : Sure (conclude net settings cluster svc host true) (λ flow. flow ≡ next)
    unfolding conclude
    conclude-Sure = Triple-then (db_lem _) (
        Triple-then (db_lem _)
          (Triple-then recover_isr-Sure (Triple-then (db_lem _) (Triple-pure _ (λ w h. refl)))))

    bring_up-Sure : Sure (bring_up net settings cluster svc host unit) (λ flow. flow ≡ next)
    unfolding bring_up
    bring_up-Sure = Triple-then (db_lem _) (
        Triple-bind _ _ (exec_command-start) λ r. Triple-fact λ e. rw e (
          Triple-then (Triple-on_db _ (λ w h. h)) (
            Triple-bind _ _ (await_healthy-Sure 60 (λ e. cc))
              λ good. record { at = λ w g. rw g (conclude-Sure.at w tt) })))

    restart_connected-Sure :
        Sure (restart_connected net settings cluster svc host) (λ flow. flow ≡ next)
    unfolding restart_connected
    restart_connected-Sure = Triple-then connect-Sure (
        Triple-then (db_lem _) (
          Sure-bind (check_broker_health-Sure _ _ _) λ good h.
            Triple-then (Triple-either _ _ _ (Triple-pure _ (λ w h. tt)) (db_lem _))
              (Triple-then shut_down-Sure bring_up-Sure)))

    pub restart_service-Sure :
        Sure (restart_service net settings cluster svc host) (λ flow. flow ≡ next)
    unfolding restart_service
    restart_service-Sure =
        Triple-try _ _ restart_connected-Sure (λ e. record { at = λ w h. absurd h })
