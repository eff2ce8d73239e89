-- ===== src/Upgrade/Looks.antt =====
-- services/upgrade_manager.py: the looks at the brokers in `pre_upgrade_check`, and what their entries
-- say of the services and of the answers.
use tantor_v.Prelude.{
  false≢true, or_left, or_right, ℕ, String, map, any, All, All-map, ◌==◌, eq_refl, ◌≡◌, refl, Bool,
  true, false, ◌&&◌, none, some, List, [], ◌∷◌, ◌++◌, arith, length, all, if◌then◌else◌, ltb, ◌∙◌,
}
use tantor_v.Prelude.Exec.{
  Exec, Result, ok, Post, Triple, Triple-pure, Triple-bind, Triple-then, Triple-try, Triple-option,
  Triple-fact, Post-both, raised,
}
use tantor_v.Models.{Service, Host, find_host}
use tantor_v.Remote.{
  Event, ran, Machines, Reply, exec_command, connect, Triple-exec_command, Triple-connect,
}
use tantor_v.Upgrade.Defs.{Command, is_active, W, says_active}
use tantor_v.Upgrade.Repo.{Versions, Tarball}
use tantor_v.Upgrade.Checks.{BrokerStatus, Check, check_version, check_binary}
use tantor_v.Upgrade.PreCheck.{look_at_broker, check_brokers, check_broker_health}

-- The entry says whether it is passed just as the flag does, and lists no broker.
abbrev pub IsPlain : Check × Bool → Type 0
IsPlain (c, passed) = (c.passed ≡ passed) × (c.details ≡ [])

pub check_version-IsPlain :
    {V : Type 0} (versions : Versions V) (current target : String)
    → IsPlain (check_version versions current target)
unfolding check_version
check_version-IsPlain versions current target = (ground arith, ground arith)

pub check_binary-IsPlain :
    (dir target : String) (found : List (String × Tarball))
    → IsPlain (check_binary dir target found)
unfolding check_binary
check_binary-IsPlain dir target found = (ground arith, ground arith)

if_same : (b : Bool) → b ≡ (if b then true else false)
if_same b = ground arith

-- "details" over all entries.
abbrev pub details_of : List Check → List BrokerStatus
details_of [] = []
details_of (c ∷ rest) = c.details ++ details_of rest

abbrev pub are_healthy : List BrokerStatus → Bool
are_healthy statuses = all (λ b. b.healthy) statuses

abbrev pub are_passed : List Check → Bool
are_passed checks = all (λ c. c.passed) checks

-- The node and the address that the entry of a service has.
abbrev pub expected : List Host → Service → ℕ × String
expected hosts svc = elim (find_host svc.host_id hosts) [
  | none ↦ (svc.node_id, "unknown")
  | some host ↦ (svc.node_id, host.ip_address)
]

expected-none :
    (hosts : List Host) (svc : Service)
    → find_host svc.host_id hosts ≡ none
    → expected hosts svc ≡ (svc.node_id, "unknown")
expected-none hosts svc e = rw (expected, e) refl

expected-some :
    (hosts : List Host) (svc : Service) (host : Host)
    → find_host svc.host_id hosts ≡ some host
    → expected hosts svc ≡ (svc.node_id, host.ip_address)
expected-some hosts svc host e = rw (expected, e) refl

-- One entry for each service, in their order.
abbrev pub AreOf : List Host → List BrokerStatus → List Service → Type 0
AreOf hosts statuses services =
    map (λ b. (b.node_id, b.host)) statuses ≡ map (expected hosts) services

-- A host that says of its broker that it is active.
abbrev is_sighting : String → Event Command → Bool
is_sighting id (ran host is_active (ok r)) = host.id == id && says_active r
is_sighting id _ = false

-- The service has a host, which has said so.
abbrev pub IsSeen : List Host → List (Event Command) → Service → Type 0
IsSeen hosts t svc =
    (host : Host) × (find_host svc.host_id hosts ≡ some host)
    × (any (λ e. is_sighting host.id e) t ≡ true)

-- What stays true when more happens.
abbrev pub IsLasting : (List (Event Command) → Type 0) → Type 0
IsLasting K = (e : Event Command) (t : List (Event Command)) → K t → K (e ∷ t)

pub All-IsSeen :
    (hosts : List Host) (services : List Service) (passed : Bool)
    → IsLasting (λ t. passed ≡ true → All (λ s. IsSeen hosts t s) services)
All-IsSeen hosts services passed e t h p =
    All-map {P = λ s. IsSeen hosts t s} {Q = λ s. IsSeen hosts (e ∷ t) s} services
      (λ s seen. (seen.0, seen.1, or_right (is_sighting seen.0.id e) _ seen.2)) (h p)

both_true : (a b : Bool) → (if a then b else false) ≡ true → (a ≡ true) × (b ≡ true)
both_true a b h = (ground (arith, h), ground (arith, h))

pub third : (a b c d e : Bool) → (a && b && c && d && e) ≡ true → c ≡ true
third a b c d e h = ground (arith, h)

abbrev pub T : W → Type 0
T w = Unit

pub Triple-known :
    {F A : Type 0} {m : Exec W A} {R : A → W → Type 0}
    → (F → Triple T m R T)
    → Triple (λ w. F) m R T
Triple-known t = record { at = λ w f. (t f).at w tt }

module _ (net : Machines Command) where
  module _ (K : List (Event Command) → Type 0) (lasting : IsLasting K) where
    abbrev Kept : W → Type 0
    Kept w = K w.trace

    pub exec_command-Kept :
        (host : Host) (c : Command) → Triple Kept (exec_command net host c) (λ r w. Kept w) Kept
    exec_command-Kept host c =
        Triple-exec_command net host c
          (λ w r k. Post-both Kept Kept r _ (lasting _ _ k) (lasting _ _ k))

    pub connect-Kept : (host : Host) → Triple Kept (connect net host) (λ _ w. Kept w) Kept
    connect-Kept host = Triple-connect net host (λ w r k. Post-both Kept Kept r _ k k)

    exec_command-seen :
        (host : Host)
        → Triple Kept
            (exec_command net host is_active)
            (λ r w.
              Kept w × (says_active r ≡ true → any (λ e. is_sighting host.id e) w.trace ≡ true))
            Kept
    exec_command-seen host = Triple-exec_command net host is_active seen
      where
        seen :
            (w : W) (r : Result Reply)
            → Kept w
            → Post
                (λ r' w'.
                  Kept w'
                  × (says_active r' ≡ true → any (λ e. is_sighting host.id e) w'.trace ≡ true))
                Kept
                (r, record w { trace = ran host is_active r ∷ w.trace })
        seen w (ok r) k = (
          lasting _ _ k,
          λ active.
              or_left (host.id == host.id && says_active r)
                (any (λ e. is_sighting host.id e) w.trace) (rw (eq_refl host.id, active) refl),
        )
        seen w (raised e) k = lasting _ _ k

    look_at_broker-Triple :
        (node_id : ℕ) (host : Host)
        → Triple Kept
            (look_at_broker net node_id host)
            (λ b w.
              ((b.node_id ≡ node_id) × (b.host ≡ host.ip_address))
              × (Kept w × (b.healthy ≡ true → any (λ e. is_sighting host.id e) w.trace ≡ true)))
            T
    unfolding look_at_broker
    look_at_broker-Triple node_id host =
        Triple-try _ _
          (Triple-then (connect-Kept host) (
            Triple-bind _ _ (exec_command-seen host)
              (λ r. Triple-pure _ (λ w h. ((refl, refl), h)))))
          λ e. Triple-pure _ (λ w k. ((refl, refl), (k, λ f. absurd (false≢true f))))

  -- The flag is what the entries say, they are the services', and if it is true all were seen.
  abbrev AreJudged : List Host → List Service → List BrokerStatus × Bool → W → Type 0
  AreJudged hosts services x w =
      (x.1 ≡ are_healthy x.0)
      × AreOf hosts x.0 services
      × (x.1 ≡ true → All (λ s. IsSeen hosts w.trace s) services)

  check_brokers-Triple :
      (hosts : List Host) (services : List Service) (K : List (Event Command) → Type 0)
      → IsLasting K
      → Triple
          (λ w. K w.trace)
          (check_brokers net hosts services)
          (λ x w. K w.trace × AreJudged hosts services x w)
          T
  unfolding check_brokers
  check_brokers-Triple hosts [] K lasting = Triple-pure _ (λ w k. (k, (refl, refl, λ p. tt)))
  check_brokers-Triple hosts (svc ∷ rest) K lasting =
      Triple-option (find_host svc.host_id hosts) _ _
        (λ missing. Triple-bind _ _ (check_brokers-Triple hosts rest K lasting) λ x.
          Triple-pure _ λ w h. (
            h.0,
            (refl, rw (expected-none hosts svc missing, h.1.1) refl, λ f. absurd (false≢true f)),
          ))
        (λ host known. Triple-bind _ _ (look_at_broker-Triple K lasting svc.node_id host) λ b.
          Triple-fact λ e.
            Triple-bind _ _
              (check_brokers-Triple hosts rest
                (λ t. K t × (b.healthy ≡ true → any (λ e. is_sighting host.id e) t ≡ true))
                (λ e t k. (lasting e t k.0, λ p. or_right (is_sighting host.id e) _ (k.1 p))))
              λ x. Triple-pure _ λ w h. (
                h.0.0,
                (
                  ground (arith, h.1.0),
                  rw (expected-some hosts svc host known, e.0, e.1, h.1.1) refl,
                  λ p.
                      let both = both_true b.healthy x.1 p in
                      ((host, known, h.0.1 both.0), h.1.2 both.1),
                ),
              ))

  pub check_broker_health-Triple :
      (hosts : List Host) (services : List Service)
      → Triple T
          (check_broker_health net hosts services)
          (λ x w.
            ((x.0.passed ≡ x.1)
              × (x.1 ≡ (ltb 0 (length services) && are_healthy x.0.details))
              × AreOf hosts x.0.details services)
            × (x.1 ≡ true → All (λ s. IsSeen hosts w.trace s) services))
          T
  unfolding check_broker_health
  check_broker_health-Triple hosts [] = Triple-pure _ (λ w h. ((refl, refl, refl), λ p. tt))
  check_broker_health-Triple hosts (svc ∷ rest) =
      Triple-bind _ _ (check_brokers-Triple hosts (svc ∷ rest) (λ t. Unit) (λ e t k. tt)) λ x.
        Triple-pure _
          λ w h. ((if_same x.1, ground (arith, h.1.0), h.1.1), λ p. h.1.2 (if_same x.1 ∙ p))
