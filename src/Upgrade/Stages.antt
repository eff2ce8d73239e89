-- ===== src/Upgrade/Stages.antt =====
-- What an onlooker who sees only the commands and the answers makes of an upgrade: which broker is
-- being upgraded, how far it has come, and which ones are done. This is the promise of a rolling
-- upgrade in services/upgrade_manager.py, independent of how the code keeps it.
use tantor_v.Prelude.{
  String, ◌≡◌, refl, Bool, true, false, ◌&&◌, not, List, [], ◌∷◌, ◌==◌, eq_refl, if◌then◌else◌,
}
use tantor_v.Prelude.Text.{strip}
use tantor_v.Prelude.Exec.{Result, ok, raised}
use tantor_v.Remote.{Event, ran, asked, slept, Reply, succeeded}
use tantor_v.Upgrade.Defs.{
  Command, stop, start, is_active, listening, backup_config, restore_config, extract, says_active,
}

-- By the id of the host: it was told to stop; its configuration was saved; its installation was
-- replaced; its configuration was put back; its start was answered with success; it was seen
-- active. Besides: no broker is down; a step was taken too early.
pub data Stage : Type 0 where
  idle broken : Stage
  stopped saved replaced restored started active : String → Stage

-- The hosts that are done, the latest first, and the stage.
abbrev pub Progress : Type 0
Progress = List String × Stage

abbrev pub answered : (Reply → Bool) → Result Reply → Bool
answered test (ok r) = test r
answered test (raised e) = false

-- `ss` found a listener on the port.
abbrev pub shows_listener : Reply → Bool
shows_listener r = succeeded r && not (strip r.stdout == "")

abbrev on_stop : String → Stage → Stage
on_stop h idle = stopped h
on_stop h s = broken

abbrev on_save : String → Bool → Stage → Stage
on_save h done (stopped g) = if done && h == g then saved g else stopped g
on_save h done s = s

-- The installation is removed first, so it must not be touched before the configuration is saved.
abbrev on_extract : String → Bool → Stage → Stage
on_extract h done (saved g) = if h == g then (if done then replaced g else saved g) else broken
on_extract h done s = broken

abbrev on_restore : String → Bool → Stage → Stage
on_restore h done (replaced g) = if done && h == g then restored g else replaced g
on_restore h done s = s

abbrev on_start : String → Bool → Stage → Stage
on_start h done (restored g) = if h == g then (if done then started g else restored g) else broken
on_start h done s = broken

abbrev on_active : String → Bool → Stage → Stage
on_active h seen (started g) = if seen && h == g then active g else started g
on_active h seen s = s

abbrev on_listening : String → Bool → Progress → Progress
on_listening h seen (done, active g) = if seen && h == g then (g ∷ done, idle) else (done, active g)
on_listening h seen p = p

abbrev observe_command : Progress → String → Command → Result Reply → Progress
observe_command (done, s) h stop r = (done, on_stop h s)
observe_command (done, s) h backup_config r = (done, on_save h (answered succeeded r) s)
observe_command (done, s) h (extract _ _) r = (done, on_extract h (answered succeeded r) s)
observe_command (done, s) h restore_config r = (done, on_restore h (answered succeeded r) s)
observe_command (done, s) h start r = (done, on_start h (answered succeeded r) s)
observe_command (done, s) h is_active r = (done, on_active h (answered says_active r) s)
observe_command p h listening r = on_listening h (answered shows_listener r) p
observe_command p h c r = p

abbrev pub observe : Progress → Event Command → Progress
observe p (slept n) = p
observe p (asked h op r) = p
observe p (ran h c r) = observe_command p h.id c r

-- The latest event stands first.
abbrev pub progress : List (Event Command) → Progress
progress [] = ([], idle)
progress (e ∷ earlier) = observe (progress earlier) e

-- No step was taken too early.
abbrev pub IsIntact : Progress → Type 0
IsIntact (done, broken) = ⊥
IsIntact (done, s) = Unit

module _ (h : String) (done : List String) where
  pub on_save_self :
      (b : Bool)
      → ◌≡◌ {A = Progress}
          (done, on_save h b (stopped h))
          (if b then (done, saved h) else (done, stopped h))
  on_save_self true = simp eq_refl
  on_save_self false = refl

  pub on_extract_self :
      (b : Bool)
      → ◌≡◌ {A = Progress}
          (done, on_extract h b (saved h))
          (if b then (done, replaced h) else (done, saved h))
  on_extract_self true = simp eq_refl
  on_extract_self false = simp eq_refl

  pub on_restore_self :
      (b : Bool)
      → ◌≡◌ {A = Progress}
          (done, on_restore h b (replaced h))
          (if b then (done, restored h) else (done, replaced h))
  on_restore_self true = simp eq_refl
  on_restore_self false = refl

  pub on_start_self :
      (b : Bool)
      → ◌≡◌ {A = Progress}
          (done, on_start h b (restored h))
          (if b then (done, started h) else (done, restored h))
  on_start_self true = simp eq_refl
  on_start_self false = simp eq_refl

  pub on_active_self :
      (b : Bool)
      → ◌≡◌ {A = Progress}
          (done, on_active h b (started h))
          (if b then (done, active h) else (done, started h))
  on_active_self true = simp eq_refl
  on_active_self false = refl

  pub on_listening_self :
      (b : Bool)
      → on_listening h b (done, active h) ≡ (if b then (h ∷ done, idle) else (done, active h))
  on_listening_self true = simp eq_refl
  on_listening_self false = refl
