-- ===== src/Restart/ExternalPromise.antt =====
-- services/rolling_restart_manager.py: what `rolling_restart_external` promises. Every broker must be
-- reached on its port, so the strict onlooker is always content.
use tantor_v.Prelude.{
  ℕ, ◌+◌, String, ◌≡◌, refl, inl, inr, Bool, true, false, ◌&&◌, List, [], ◌∷◌, ◌==◌, length, Option,
  none, some, if◌then◌else◌,
}
use tantor_v.Prelude.Int.{ℤ}
use tantor_v.Prelude.Dict.{lookup}
use tantor_v.Prelude.Exec.{
  Exec, pure, raise, ◌>>=◌, ◌>>◌, Post-both, Triple, Triple-pure, Triple-raise, Triple-bind,
  Triple-if, Triple-try,
}
use tantor_v.Models.{Cluster, Host, find_host}
use tantor_v.Remote.{
  ran, Machines, succeeded, Triple-exec_command, Triple-on_db, Triple-connect, Triple-sleep,
}
use tantor_v.Restart.Defs.{Command, probe_port, Task, W, check_kafka_port}
use tantor_v.Restart.Managed.{Flow, next, halt}
use tantor_v.Restart.Run.{Panel, loaded}
use tantor_v.Restart.External.{
  BrokerEntry, BrokerHosts, entry_unit, external_port, read_external_broker_hosts,
  conclude_external, bring_up_external, restart_entry_connected, entry_failed, restart_entry,
  key_error, restart_entries, finish_external, restart_listed, restart_external,
  run_restart_external, find_external, rolling_restart_external,
}
use tantor_v.Restart.Phase.{
  Phase, up, broken, stopping, starting, active, on_probe, phase, IsSettled, IsSettled-IsIntact, At,
  Intact, Settled,
}
use tantor_v.Restart.Safety.{shut_down-Triple}
use tantor_v.Restart.Health.{Rising, Verdict, start-Triple, await_healthy-Triple}
use tantor_v.Restart.OneByOne.{Failed, Goes, Ended}
use tantor_v.Restart.Promise.{EndsWell, Post-Ended, saved-EndsWell}

on_probe-IsSettled :
    (strict : Bool) (h : String) (b : Bool) (p : Phase)
    → IsSettled strict p
    → IsSettled strict (on_probe h b p)
on_probe-IsSettled strict h b up s = tt
on_probe-IsSettled strict h b broken s = s
on_probe-IsSettled strict h b (stopping _ _) s = s
on_probe-IsSettled strict h b (starting _ _) s = s
on_probe-IsSettled strict h b (active h' u) s = reached (b && h == h')
  where
    reached : (c : Bool) → IsSettled strict (if c then up else active h' u)
    reached true = tt
    reached false = s

module _ (net : Machines Command) (strict : Bool) (port : ℤ) where
  probe-Triple :
      (host : Host)
      → Triple
          (Settled strict)
          (check_kafka_port net host port)
          (λ _. Settled strict)
          (Intact strict)
  unfolding check_kafka_port
  probe-Triple host =
      Triple-bind _ _
        (Triple-exec_command net host (probe_port port) λ w r h.
          let w' : W = record w { trace = ran host (probe_port port) r ∷ w.trace } in
          let h' : Settled strict w' =
            on_probe-IsSettled strict host.id _ (phase strict w.trace) h in
          Post-both (Settled strict) (Intact strict) r w' h' (IsSettled-IsIntact strict _ h'))
        λ r. Triple-pure _ (λ w h. h)

  module _ (entry : BrokerEntry) (host : Host) where
    conclude_external-Triple :
        (good : Bool)
        → Triple
            (Verdict strict host.id (entry_unit entry) good)
            (conclude_external net port entry host good)
            (Goes strict)
            (Intact strict)
    unfolding conclude_external
    conclude_external-Triple true =
        Triple-bind _ _ (Triple-on_db {R = λ _. Settled strict} _ (λ w h. h)) λ _.
          Triple-bind _ _ (Triple-on_db {R = λ _. Settled strict} _ (λ w h. h)) λ _.
            Triple-bind _ _ (Triple-sleep {R = λ _. Settled strict} 15 (λ w h. h)) λ _.
              Triple-bind _ _ (Triple-on_db {R = λ _. Settled strict} _ (λ w h. h))
                λ _. Triple-pure _ (λ w h. h)
    conclude_external-Triple false =
        Triple-bind _ _ (Triple-on_db {R = λ _. Intact strict} _ rising) λ _.
          Triple-bind _ _ (Triple-on_db {R = λ _. Failed strict} _ (λ w h. (refl, h)))
            λ _. Triple-pure _ (λ w h. h)
      where
        rising : (w : W) → Rising strict host.id (entry_unit entry) w → Intact strict w
        rising w (inl e) = rw e tt
        rising w (inr e) = rw e tt

    bring_up_external-Triple :
        Triple
          (At strict (stopping host.id (entry_unit entry)))
          (bring_up_external net port entry host (entry_unit entry))
          (Goes strict)
          (Intact strict)
    unfolding bring_up_external
    bring_up_external-Triple = Triple-bind _ _ (Triple-on_db _ (λ w h. h)) λ _.
        Triple-bind _ _ (start-Triple net strict host (entry_unit entry)) λ r.
          Triple-if (succeeded r) _ _
            (λ e.
              Triple-bind _ _
                (Triple-on_db {R = λ _. Rising strict host.id (entry_unit entry)} _
                  (λ w h. inl (rw e at h)))
                λ _.
                  Triple-bind _ _
                    (await_healthy-Triple net strict host (entry_unit entry) true
                      (λ t. absurd (true_false t)) 60 port)
                    conclude_external-Triple)
            (λ e.
              Triple-bind _ _ (Triple-on_db {R = λ _. Intact strict} _ (λ w h. down w (rw e at h)))
                λ _.
                  Triple-bind _ _ (Triple-on_db {R = λ _. Failed strict} _ (λ w h. (refl, h)))
                    λ _. Triple-pure _ (λ w h. h))
      where
        down : (w : W) → At strict (stopping host.id (entry_unit entry)) w → Intact strict w
        down w e = rw e tt

        true_false : true ≡ false → ⊥
        true_false t = cc

    restart_entry-Triple :
        (total idx : ℕ)
        → Triple
            (Settled strict)
            (restart_entry net port entry host total idx)
            (Goes strict)
            (Intact strict)
    unfolding restart_entry restart_entry_connected entry_failed
    restart_entry-Triple total idx = Triple-bind _ _ (Triple-on_db _ (λ w h. h)) λ _.
        Triple-bind _ _ (Triple-on_db _ (λ w h. h)) λ _.
          Triple-try _ _
            (Triple-bind _ _
              (Triple-connect net host (λ w r h.
                Post-both (Settled strict) (Intact strict) r w h (IsSettled-IsIntact strict _ h)))
              λ _. Triple-bind _ _ (Triple-on_db _ (λ w h. h)) λ _.
                Triple-bind _ _ (probe-Triple host) λ good.
                  Triple-bind _ _
                    (Triple-if good _ _ (λ _. Triple-pure _ (λ w h. h))
                      (λ _. Triple-on_db _ (λ w h. h)))
                    λ _.
                      Triple-bind _ _ (shut_down-Triple net strict host (entry_unit entry))
                        λ _. bring_up_external-Triple)
            λ e. Triple-bind _ _ (Triple-on_db {R = λ _. Intact strict} _ (λ w h. h)) λ _.
              Triple-bind _ _ (Triple-on_db {R = λ _. Failed strict} _ (λ w h. (refl, h)))
                λ _. Triple-pure _ (λ w h. h)

  module _ (hosts : List Host) where
    go_on :
        (m : Exec W Flow)
        → Triple (Settled strict) m (Goes strict) (Intact strict)
        → (flow : Flow)
        → Triple
            (Goes strict flow)
            (elim flow [ next ↦ m | halt ↦ pure halt ])
            (Goes strict)
            (Intact strict)
    go_on m t next = t
    go_on m t halt = Triple-pure _ (λ w h. h)

    pass :
        (m : Exec W Flow) (skip : String → Exec W (Unit {0})) (run : Host → Exec W Flow)
        → Triple (Settled strict) m (Goes strict) (Intact strict)
        → ((id : String) → Triple (Settled strict) (skip id) (λ _. Settled strict) (Intact strict))
        → ((host : Host) → Triple (Settled strict) (run host) (Goes strict) (Intact strict))
        → (named : Option String)
        → Triple
            (Settled strict)
            (elim named [
              | none ↦ raise (key_error net port)
              | some id ↦ elim (find_host id hosts) [
                | none ↦ skip id >> m
                | some host ↦ run host >>= λ flow. elim flow [ next ↦ m | halt ↦ pure halt ]
              ]
            ])
            (Goes strict)
            (Intact strict)
    pass m skip run t s r none = Triple-raise _ (λ w h. IsSettled-IsIntact strict _ h)
    pass m skip run t s r (some id) = by_host (find_host id hosts)
      where
        by_host :
            (found : Option Host)
            → Triple
                (Settled strict)
                (elim found [
                  | none ↦ skip id >> m
                  | some host ↦ run host >>= λ flow. elim flow [ next ↦ m | halt ↦ pure halt ]
                ])
                (Goes strict)
                (Intact strict)
        by_host none = Triple-bind _ _ (s id) (λ _. t)
        by_host (some host) = Triple-bind _ _ (r host) (go_on m t)

    restart_entries-Triple :
        (total idx : ℕ) (entries : List BrokerEntry)
        → Triple
            (Settled strict)
            (restart_entries net port hosts total idx entries)
            (Goes strict)
            (Intact strict)
    unfolding restart_entries
    restart_entries-Triple total idx [] = Triple-pure _ (λ w h. h)
    restart_entries-Triple total idx (entry ∷ rest) =
        pass (restart_entries net port hosts total (idx + 1) rest) _
          (λ host. restart_entry net port entry host total idx)
          (restart_entries-Triple total (idx + 1) rest) (λ id. Triple-on_db _ (λ w h. h))
          (λ host. restart_entry-Triple entry host total idx) entry.host_id

finish_external-Triple :
    (strict : Bool) (total : ℕ) (flow : Flow)
    → Triple (Goes strict flow) (finish_external total flow) (λ _. Ended strict) (Intact strict)
unfolding finish_external
finish_external-Triple strict total halt = Triple-pure _ (λ w h. inr h)
finish_external-Triple strict total next =
    Triple-bind _ _ (Triple-on_db {R = λ _. Settled strict} _ (λ w h. h)) λ _.
      Triple-bind _ _ (Triple-on_db {R = λ _. Settled strict} _ (λ w h. h))
        λ _. Triple-on_db _ (λ w h. inl (refl, h))

module _ (net : Machines Command) (strict : Bool) (hosts : List Host) where
  restart_listed-Triple :
      (cluster : Cluster) (entries : List BrokerEntry)
      → Triple
          (Settled strict)
          (restart_listed net hosts cluster entries)
          (λ _. Ended strict)
          (Intact strict)
  unfolding restart_listed
  restart_listed-Triple cluster [] =
      Triple-bind _ _
        (Triple-on_db {R = λ _. Intact strict} _ (λ w h. IsSettled-IsIntact strict _ h))
        λ _. Triple-on_db _ (λ w h. inr (refl, h))
  restart_listed-Triple cluster (entry ∷ rest) =
      Triple-bind _ _ (Triple-on_db {R = λ _. Settled strict} _ (λ w h. h)) λ _.
        Triple-bind _ _ (Triple-on_db {R = λ _. Settled strict} _ (λ w h. h)) λ _.
          Triple-bind _ _ (Triple-on_db {R = λ _. Settled strict} _ (λ w h. h)) λ _.
            Triple-bind _ _ (Triple-on_db {R = λ _. Settled strict} _ (λ w h. h)) λ _.
              Triple-bind _ _
                (restart_entries-Triple net strict (external_port cluster) hosts
                  (length (entry ∷ rest)) 0 (entry ∷ rest))
                (finish_external-Triple strict (length (entry ∷ rest)))

  run_restart_external-Triple :
      (found : Option (Cluster × BrokerHosts))
      → Triple (Settled strict) (run_restart_external net hosts found) (λ _. Ended strict) (λ w. ⊥)
  unfolding run_restart_external restart_external
  run_restart_external-Triple found = Triple-try _ _ (body found) λ e.
      Triple-bind _ _ (Triple-on_db {R = λ _. Intact strict} _ (λ w h. h))
        λ _. Triple-on_db _ (λ w h. inr (refl, h))
    where
      body :
          (found : Option (Cluster × BrokerHosts))
          → Triple
              (Settled strict)
              (restart_external net hosts found)
              (λ _. Ended strict)
              (Intact strict)
      body none =
          Triple-bind _ _
            (Triple-on_db {R = λ _. Intact strict} _ (λ w h. IsSettled-IsIntact strict _ h))
            λ _. Triple-on_db _ (λ w h. inr (refl, h))
      body (some (cluster, column)) =
          restart_listed-Triple cluster (read_external_broker_hosts column)

-- Let a restart of an external cluster find its task, and let every unit be back before it. However
-- the machines answer and whatever entries are registered, the method leaves the task completed or in
-- error. When it is completed, every unit that was stopped was seen active and, when `strict`, then
-- reached on a port; when it is in error, no unit was stopped before the one stopped earlier had
-- been seen so.
pub rolling_restart_external-EndsWell :
    (net : Machines Command) (strict : Bool) (rows : List (Cluster × BrokerHosts))
    (cluster_id task_id : String) (p : Panel) (task : Task)
    → lookup task_id p.tasks ≡ some task
    → IsSettled strict (phase strict p.trace)
    → EndsWell strict task_id (rolling_restart_external net rows cluster_id task_id p)
unfolding rolling_restart_external
rolling_restart_external-EndsWell net strict rows cluster_id task_id p task found settled =
    let row = find_external cluster_id rows in
    let final = (run_restart_external net p.hosts row (loaded p task)).1 in
    let t = run_restart_external-Triple net strict p.hosts row in
    rw (found, rolling_restart_external)
      (saved-EndsWell strict task_id p final (Post-Ended strict _ (t.at (loaded p task) settled)))
