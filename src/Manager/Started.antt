-- ===== src/Manager/Started.antt =====
-- services/cluster_manager.py: what `start_cluster` leaves behind.
use mathlib.Core.List.{Perm}
use tantor_v.Prelude.{
  ℕ, String, ◌≡◌, refl, sym, ◌∙◌, false, Option, none, some, List, [], ◌∷◌, all, map, if◌then◌else◌,
}
use tantor_v.Prelude.Sort.{sort_by, IsSortedBy, sort_by-IsSortedBy, sort_by-perm}
use tantor_v.Prelude.Exec.{
  Result, ok, raised, Exec, pure, gets, continue, ◌>>=◌, Post, Triple, Triple-pure, Triple-bind,
  Triple-try, Triple-if, Triple-after, Triple-fact,
}
use tantor_v.Models.{Cluster, Service, Host, find_host, set_status, find_cluster}
use tantor_v.Remote.{Machines, succeeded, on_db, Triple-on_db}
use tantor_v.Manager.Units.{start_order}
use tantor_v.Manager.Ssh.{Command, ManagerDb, W}
use tantor_v.Manager.Cleanup.{ActionResult}
use tantor_v.Manager.Frame.{
  Keeps-exec_command, Keeps-connect, Keeps-select_existing_unit, Keeps-systemctl_action,
  Returns-select_existing_unit_via_agent, Returns-agent_available,
}
use tantor_v.Manager.Lifecycle.{
  set_state, services_of, action_result, start_service_via_agent, start_service, mark_result,
  running_or_error, start_on, each_service, conclude, start_cluster,
}

-- The rows of the database.
abbrev pub Rows : List Cluster → List Service → ManagerDb → Type 0
Rows C S d = (d.clusters ≡ C) × (d.services ≡ S)

-- What a run of one service does to the rows, read off its result.
abbrev pub replay :
    (ActionResult → List Service → List Service) → List ActionResult → List Service → List Service
replay after [] rows = rows
replay after (r ∷ later) rows = replay after later (after r rows)

abbrev pub after_start : ActionResult → List Service → List Service
after_start r rows = elim r.via [
  | none ↦ rows
  | some _ ↦ set_status r.service_id (running_or_error r.success) rows
]

-- A run does not raise, reports on its service, and changes the rows as its result says.
abbrev pub Reports :
    (ActionResult → List Service → List Service) → Service → Exec W ActionResult → Type 0
Reports after svc m =
    (C : List Cluster) (S : List Service)
    → Triple (λ w. Rows C S w.db) m (λ r w. (r.service_id ≡ svc.id) × Rows C (after r S) w.db)
        (λ _. ⊥)

module _ (after : ActionResult → List Service → List Service) (hosts : List Host) (action : String)
    (run : Service → Host → Exec W ActionResult)
    (idle : (svc : Service) (S : List Service)
      → after (action_result svc action false "Host not found" none) S ≡ S)
    (reports : (svc : Service) (host : Host) → Reports after svc (run svc host)) where
  one-Reports :
      (svc : Service) (found : Option Host)
      → Reports after svc (elim found [
        | none ↦ pure (action_result svc action false "Host not found" none)
        | some host ↦ run svc host
      ])
  one-Reports svc none C S = Triple-pure _ (λ w h. (refl, (h.0, h.1 ∙ sym (idle svc S))))
  one-Reports svc (some host) C S = reports svc host C S

  pub each_service-Triple :
      (services : List Service) (C : List Cluster) (S : List Service)
      → Triple
          (λ w. Rows C S w.db)
          (each_service hosts action run services)
          (λ rs w.
            (map (λ r. r.service_id) rs ≡ map (λ s. s.id) services)
            × Rows C (replay after rs S) w.db)
          (λ _. ⊥)
  unfolding each_service
  each_service-Triple [] C S = Triple-pure [] (λ w h. (refl, h))
  each_service-Triple (svc ∷ rest) C S =
      Triple-bind _ _ (one-Reports svc (find_host svc.host_id hosts) C S) λ r. Triple-fact λ same.
        Triple-bind _ _ (each_service-Triple rest C (after r S))
          λ later. Triple-pure (r ∷ later) (λ w h. (rw (same, h.0) refl, h.1))

module _ (net : Machines Command) where
  mark_result-Reports :
      (svc : Service) (r : ActionResult) (via : String) (C : List Cluster) (S : List Service)
      → r.service_id ≡ svc.id
      → r.via ≡ some via
      → Triple
          (λ w. Rows C S w.db)
          (mark_result svc r)
          (λ r w. (r.service_id ≡ svc.id) × Rows C (after_start r S) w.db)
          (λ _. ⊥)
  mark_result-Reports svc r via C S same found =
      Triple-bind _ _
        (Triple-on_db {R = λ _ w. Rows C (set_status svc.id (running_or_error r.success) S) w.db} _
          (λ w h. (h.0, rw (h.1) refl)))
        λ _. Triple-pure r (λ w h. (same, (h.0, h.1 ∙ rw (found, same) refl)))

  module _ (cluster : Option Cluster) (svc : Service) (host : Host) where
    -- A result of this service that says how it came about.
    abbrev IsAbout : ActionResult → Type 0
    IsAbout r = (r.service_id ≡ svc.id) × ((via : String) × (r.via ≡ some via))

    start_service_via_agent-Triple :
        (P : ManagerDb → Type 0)
        → Triple
            (λ w. P w.db)
            (start_service_via_agent net cluster svc host)
            (λ r w. IsAbout r × P w.db)
            (λ _. ⊥)
    unfolding start_service_via_agent
    start_service_via_agent-Triple P =
        Triple-bind _ _ (Returns-select_existing_unit_via_agent P net host _) λ unit.
          Triple-try _ _
            (Triple-bind _ _ (Keeps-systemctl_action P net host "start" unit)
              λ r. Triple-pure _ (λ w h. ((refl, ("agent", refl)), h)))
            (λ e. Triple-pure _ (λ w h. ((refl, ("agent", refl)), h)))

    start_service-Triple :
        (P : ManagerDb → Type 0)
        → Triple
            (λ w. P w.db)
            (start_service net cluster svc host)
            (λ r w. IsAbout r × P w.db)
            (λ w. P w.db)
    unfolding start_service
    start_service-Triple P = Triple-bind _ _ (Keeps-select_existing_unit P net host _) λ unit.
        Triple-bind _ _ (Keeps-exec_command P net host _) λ r.
          Triple-if (succeeded r) _ _ (λ _. Triple-pure _ (λ w h. ((refl, ("ssh", refl)), h)))
            (λ _. Triple-pure _ (λ w h. ((refl, ("ssh", refl)), h)))

    marked :
        (E : W → Type 0) (C : List Cluster) (S : List Service) (r : ActionResult)
        → ((w : W) → ⊥ → E w)
        → Triple
            (λ w. IsAbout r × Rows C S w.db)
            (mark_result svc r)
            (λ r w. (r.service_id ≡ svc.id) × Rows C (after_start r S) w.db)
            E
    marked E C S r f = Triple-fact λ about.
        Triple-after (mark_result svc r) (λ _ _ h. h) f
          (mark_result-Reports svc r about.1.0 C S about.0 about.1.1)

    start_on-Reports : Reports after_start svc (start_on net cluster svc host)
    unfolding start_on
    start_on-Reports C S =
        Triple-bind _ _ (Returns-agent_available (Rows C S) net host host.id) λ b.
          Triple-if b _ _
            (λ _.
              Triple-bind _ _ (start_service_via_agent-Triple (Rows C S))
                (λ r. marked (λ _. ⊥) C S r (λ _ e. e)))
            (λ _.
              Triple-try _ _
                (Triple-bind _ _ (Keeps-connect (Rows C S) net host) λ _.
                  Triple-bind _ _ (start_service-Triple (Rows C S))
                    (λ r. marked (λ w. Rows C S w.db) C S r (λ _ e. elim e [ ])))
                (λ e.
                  Triple-bind _ _
                    (Triple-on_db {R = λ _ w. Rows C (set_status svc.id "error" S) w.db} _
                      (λ w h. (h.0, rw (h.1) refl)))
                    λ _. Triple-pure _ (λ w h. (refl, h))))

-- How a run over the services of a cluster ends: it returns; the results stand for the services of
-- the cluster, each once, by rising order; each service's status is what the results say; and the
-- cluster's state says whether all of them succeeded.
abbrev pub EndsAs :
    (ActionResult → List Service → List Service)
    → String
    → String
    → (Service → ℕ)
    → ManagerDb
    → Result (List ActionResult) × W
    → Type 0
EndsAs after good cluster_id order before end =
    (results : List ActionResult) × (ordered : List Service) × (end.0 ≡ ok results)
    × Perm ordered (services_of cluster_id before.services)
    × IsSortedBy order ordered
    × (map (λ r. r.service_id) results ≡ map (λ s. s.id) ordered)
    × (end.1.db.services ≡ replay after results before.services)
    × (end.1.db.clusters
        ≡ set_state cluster_id (if all (λ r. r.success) results then good else "error")
            before.clusters)

module _ (after : ActionResult → List Service → List Service) (hosts : List Host)
    (cluster_id good : String) (order : Service → ℕ) (d : ManagerDb) where
  pub conclude-EndsAs :
      (m : Exec W (List ActionResult)) (w : W)
      → Post
          (λ rs w.
            (map (λ r. r.service_id) rs
              ≡ map (λ s. s.id) (sort_by order (services_of cluster_id d.services)))
            × Rows d.clusters (replay after rs d.services) w.db)
          (λ _. ⊥)
          (m w)
      → EndsAs after good cluster_id order d ((m >>= conclude cluster_id good) w)
  unfolding ◌>>=◌ conclude on_db pure
  conclude-EndsAs m w = ended (m w)
    where
      ended :
          (x : Result (List ActionResult) × W)
          → Post
              (λ rs w.
                (map (λ r. r.service_id) rs
                  ≡ map (λ s. s.id) (sort_by order (services_of cluster_id d.services)))
                × Rows d.clusters (replay after rs d.services) w.db)
              (λ _. ⊥)
              x
          → EndsAs after good cluster_id order d (continue (conclude cluster_id good) x.0 x.1)
      ended (ok rs, w') h = (
        rs,
        sort_by order (services_of cluster_id d.services),
        refl,
        sort_by-perm order _,
        sort_by-IsSortedBy order _,
        h.0,
        h.1.1,
        rw (h.1.0) refl,
      )
      ended (raised e, w') h = elim h [ ]

-- `start_cluster` returns, with one result for each service of the cluster in the order of
-- START_ORDER; each service is "running" or "error" as its result says, and untouched when its host
-- is not found; the cluster is "running" if all started and "error" if not.
pub start_cluster-EndsAs :
    (net : Machines Command) (hosts : List Host) (cluster_id : String) (w : W)
    → EndsAs after_start "running" cluster_id
        (λ s. start_order s.role)
        w.db
        (start_cluster hosts net cluster_id w)
unfolding start_cluster gets ◌>>=◌
start_cluster-EndsAs net hosts cluster_id w =
    conclude-EndsAs after_start hosts cluster_id "running" (λ s. start_order s.role) w.db
      (each_service hosts "start"
        (λ svc host. start_on net (find_cluster cluster_id w.db.clusters) svc host)
        (sort_by (λ s. start_order s.role) (services_of cluster_id w.db.services)))
      w
      ((each_service-Triple after_start hosts "start"
          (λ svc host. start_on net (find_cluster cluster_id w.db.clusters) svc host)
          (λ svc S. refl)
          (λ svc host. start_on-Reports net (find_cluster cluster_id w.db.clusters) svc host)
          (sort_by (λ s. start_order s.role) (services_of cluster_id w.db.services)) w.db.clusters
          w.db.services).at
        w (refl, refl))
