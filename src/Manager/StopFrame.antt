-- ===== src/Manager/StopFrame.antt =====
-- services/cluster_manager.py: stopping a service's unit keeps the rows as they are, and by way of
-- an agent it does not raise.
use tantor_v.Prelude.{ℕ, zero, suc, String, Bool, true, false, List, [], ◌∷◌}
use tantor_v.Prelude.Int.{ℤ}
use tantor_v.Prelude.Exec.{Exec}
use tantor_v.Models.{Host}
use tantor_v.Remote.{Machines, sleep, now}
use tantor_v.Transport.{systemctl_kill_action, systemctl_daemon_reload, file_delete_via_agent}
use tantor_v.Ports.Listening.{Holders, list_listening}
use tantor_v.Manager.Ssh.{
  Command, ManagerDb, W, released, out_of_fuel, held, ports, unit_state, await_inactive,
  kill_unless, remove_if, stop_verdict, settle_stop, stop_unit, await_released, wait_ports_released,
  cleanup_from, cleanup_units,
}
use tantor_v.Manager.Agent.{
  ignoring_errors, await_inactive_via_agent, kill_unless_via_agent, remove_if_via_agent,
  stop_verdict_via_agent, settle_stop_via_agent, after_stop_via_agent, try_stop_via_agent,
  stop_unit_via_agent, look_via_agent, cleanup_from_via_agent, cleanup_units_via_agent,
}
use tantor_v.Manager.Frame.{
  Keeps, Returns, Keeps-bind, Returns-bind, Keeps-pure, Returns-pure, Returns-try, Keeps-elim,
  Keeps-elim_swapped, Keeps-if, Returns-elim, Returns-if, Returns→Keeps, Keeps-exec_command,
  Keeps-run_op, Returns-sleep, Keeps-unit_exists, Keeps-systemctl_action,
  Keeps-unit_exists_via_agent, Keeps-unit_state_via_agent,
}

module _ (P : ManagerDb → Type 0) (net : Machines Command) (host : Host) where
  Keeps-sleep : (n : ℕ) → Keeps P (sleep n)
  Keeps-sleep n = Returns→Keeps P _ (Returns-sleep P net host n)

  Keeps-unit_state : (unit : String) → Keeps P (unit_state net host unit)
  unfolding unit_state
  Keeps-unit_state unit = Keeps-bind P _ _ (Keeps-exec_command P net host _) (λ r. Keeps-pure P _)

  Keeps-await_inactive :
      (rounds : ℕ) (unit : String) → Keeps P (await_inactive net host rounds unit)
  unfolding await_inactive
  Keeps-await_inactive zero unit = Keeps-pure P false
  Keeps-await_inactive (suc rounds) unit = Keeps-bind P _ _ (Keeps-unit_state unit) λ state.
      Keeps-elim P _ _ _ (Keeps-pure P true)
        (Keeps-bind P _ _ (Keeps-sleep 1) (λ _. Keeps-await_inactive rounds unit))

  Keeps-kill_unless : (b : Bool) (unit : String) → Keeps P (kill_unless net host b unit)
  unfolding kill_unless
  Keeps-kill_unless true unit = Keeps-pure P tt
  Keeps-kill_unless false unit =
      Keeps-bind P _ _ (Keeps-exec_command P net host _) (λ _. Keeps-sleep 2)

  Keeps-remove_if : (b : Bool) (unit : String) → Keeps P (remove_if net host b unit)
  unfolding remove_if
  Keeps-remove_if false unit = Keeps-pure P tt
  Keeps-remove_if true unit = Keeps-bind P _ _ (Keeps-exec_command P net host _) λ _.
      Keeps-bind P _ _ (Keeps-exec_command P net host _)
        λ _. Keeps-bind P _ _ (Keeps-exec_command P net host _) (λ _. Keeps-pure P tt)

  Keeps-settle_stop : (unit : String) (remove : Bool) → Keeps P (settle_stop net host unit remove)
  unfolding settle_stop stop_verdict
  Keeps-settle_stop unit remove = Keeps-bind P _ _ (Keeps-await_inactive 15 unit) λ broke.
      Keeps-bind P _ _ (Keeps-kill_unless broke unit) λ _.
        Keeps-bind P _ _ (Keeps-exec_command P net host _) λ _.
          Keeps-bind P _ _ (Keeps-remove_if remove unit) λ _.
            Keeps-bind P _ _ (Keeps-unit_state unit)
              λ state. Keeps-if P _ _ _ (Keeps-pure P _) (Keeps-pure P _)

  pub Keeps-stop_unit : (unit : String) (remove : Bool) → Keeps P (stop_unit net host unit remove)
  unfolding stop_unit
  Keeps-stop_unit unit remove = Keeps-bind P _ _ (Keeps-unit_exists P net host unit) λ exists.
      Keeps-bind P _ _ (Keeps-unit_state unit) λ state. Keeps-if P _ _ _ (Keeps-pure P _) (
        Keeps-bind P _ _ (Keeps-exec_command P net host _)
          λ r. Keeps-if P _ _ _ (Keeps-pure P _) (Keeps-settle_stop unit remove))

  Keeps-list_listening : (wanted : List ℤ) → Keeps P (list_listening net ports host wanted)
  unfolding list_listening
  Keeps-list_listening wanted = Keeps-bind P _ _ (Keeps-exec_command P net host _) λ r.
      Keeps-if P _ _ _ (Keeps-pure P _)
        (Keeps-bind P _ _ (Keeps-exec_command P net host _) (λ r2. Keeps-pure P _))

  Keeps-now : Keeps P (now net)
  unfolding now
  Keeps-now = record { at = λ w h. h }

  Keeps-await_released :
      (fuel deadline : ℕ) (wanted : List ℤ) (seen : Holders)
      → Keeps P (await_released net host fuel deadline wanted seen)
  unfolding await_released
  Keeps-await_released zero deadline wanted seen =
      Keeps-bind P _ _ Keeps-now
        λ t. Keeps-if P _ _ _ (Keeps-pure P out_of_fuel) (Keeps-pure P (held seen))
  Keeps-await_released (suc fuel) deadline wanted seen = Keeps-bind P _ _ Keeps-now λ t.
      Keeps-elim_swapped P _ _ _ (Keeps-pure P (held seen)) (
        Keeps-bind P _ _ (Keeps-list_listening wanted) λ listening.
          Keeps-elim P _ _ _ (Keeps-pure P released) (
            Keeps-bind P _ _ (Keeps-sleep 1)
              (λ _. Keeps-await_released fuel deadline wanted listening)))

  pub Keeps-wait_ports_released : (wanted : List ℤ) → Keeps P (wait_ports_released net host wanted)
  unfolding wait_ports_released
  Keeps-wait_ports_released [] = Keeps-pure P released
  Keeps-wait_ports_released (p ∷ rest) =
      Keeps-bind P _ _ Keeps-now (λ t. Keeps-await_released 21 _ (p ∷ rest) [])

  Keeps-cleanup_from :
      (primary : String × Bool × String) (units : List String)
      → Keeps P (cleanup_from net host primary units)
  unfolding cleanup_from
  Keeps-cleanup_from primary [] = Keeps-pure P _
  Keeps-cleanup_from primary (unit ∷ rest) =
      Keeps-bind P _ _ (Keeps-unit_exists P net host unit) λ exists.
        Keeps-bind P _ _ (Keeps-unit_state unit)
          λ state. Keeps-elim P _ _ _ (Keeps-pure P _) (Keeps-cleanup_from primary rest)

  pub Keeps-cleanup_units : (units : List String) → Keeps P (cleanup_units net host units)
  unfolding cleanup_units
  Keeps-cleanup_units [] = Keeps-pure P []
  Keeps-cleanup_units (primary ∷ rest) =
      Keeps-bind P _ _ (Keeps-unit_exists P net host primary) λ exists.
        Keeps-bind P _ _ (Keeps-unit_state primary)
          λ state. Keeps-if P _ _ _ (Keeps-pure P _) (Keeps-cleanup_from _ rest)

  Returns-ignoring_errors : {A : Type 0} (m : Exec W A) → Keeps P m → Returns P (ignoring_errors m)
  Returns-ignoring_errors m t =
      Returns-try P _ _ (Keeps-bind P _ _ t (λ _. Keeps-pure P tt)) (λ _. Returns-pure P tt)

  Keeps-systemctl_kill_action :
      (unit mode : String) → Keeps P (systemctl_kill_action net host unit mode)
  unfolding systemctl_kill_action
  Keeps-systemctl_kill_action unit mode =
      Keeps-bind P _ _ (Keeps-run_op P net host _) (λ r. Keeps-pure P _)

  Keeps-systemctl_daemon_reload : Keeps P (systemctl_daemon_reload net host)
  unfolding systemctl_daemon_reload
  Keeps-systemctl_daemon_reload = Keeps-bind P _ _ (Keeps-run_op P net host _) (λ r. Keeps-pure P _)

  Keeps-file_delete_via_agent : (path : String) → Keeps P (file_delete_via_agent net host path)
  unfolding file_delete_via_agent
  Keeps-file_delete_via_agent path =
      Keeps-bind P _ _ (Keeps-run_op P net host _) (λ r. Keeps-pure P _)

  Keeps-await_inactive_via_agent :
      (rounds : ℕ) (unit : String) → Keeps P (await_inactive_via_agent net host rounds unit)
  unfolding await_inactive_via_agent
  Keeps-await_inactive_via_agent zero unit = Keeps-pure P false
  Keeps-await_inactive_via_agent (suc rounds) unit =
      Keeps-bind P _ _ (Keeps-unit_state_via_agent P net host unit) λ state.
        Keeps-elim P _ _ _ (Keeps-pure P true)
          (Keeps-bind P _ _ (Keeps-sleep 1) (λ _. Keeps-await_inactive_via_agent rounds unit))

  Keeps-kill_unless_via_agent :
      (b : Bool) (unit : String) → Keeps P (kill_unless_via_agent net host b unit)
  unfolding kill_unless_via_agent
  Keeps-kill_unless_via_agent true unit = Keeps-pure P tt
  Keeps-kill_unless_via_agent false unit =
      Keeps-bind P _ _
        (Returns→Keeps P _ (Returns-ignoring_errors _ (Keeps-systemctl_kill_action unit "all")))
        (λ _. Keeps-sleep 2)

  Keeps-remove_if_via_agent :
      (b : Bool) (unit : String) → Keeps P (remove_if_via_agent net host b unit)
  unfolding remove_if_via_agent
  Keeps-remove_if_via_agent false unit = Keeps-pure P tt
  Keeps-remove_if_via_agent true unit =
      Keeps-bind P _ _
        (Returns→Keeps P _ (Returns-ignoring_errors _ (Keeps-systemctl_action P net host _ _)))
        λ _.
          Keeps-bind P _ _
            (Returns→Keeps P _ (Returns-ignoring_errors _ (Keeps-file_delete_via_agent _)))
            λ _. Returns→Keeps P _ (Returns-ignoring_errors _ Keeps-systemctl_daemon_reload)

  Keeps-settle_stop_via_agent :
      (unit : String) (remove : Bool) → Keeps P (settle_stop_via_agent net host unit remove)
  unfolding settle_stop_via_agent stop_verdict_via_agent
  Keeps-settle_stop_via_agent unit remove =
      Keeps-bind P _ _ (Keeps-await_inactive_via_agent 15 unit) λ broke.
        Keeps-bind P _ _ (Keeps-kill_unless_via_agent broke unit) λ _.
          Keeps-bind P _ _
            (Returns→Keeps P _ (Returns-ignoring_errors _ (Keeps-systemctl_action P net host _ _)))
            λ _. Keeps-bind P _ _ (Keeps-remove_if_via_agent remove unit) λ _.
              Keeps-bind P _ _ (Keeps-unit_state_via_agent P net host unit)
                λ state. Keeps-if P _ _ _ (Keeps-pure P _) (Keeps-pure P _)

  pub Returns-stop_unit_via_agent :
      (unit : String) (remove : Bool) → Returns P (stop_unit_via_agent net host unit remove)
  unfolding stop_unit_via_agent try_stop_via_agent after_stop_via_agent
  Returns-stop_unit_via_agent unit remove =
      Returns-try P _ _
        (Keeps-bind P _ _ (Keeps-unit_exists_via_agent P net host unit) λ exists.
          Keeps-bind P _ _ (Keeps-unit_state_via_agent P net host unit) λ state.
            Keeps-if P _ _ _ (Keeps-pure P _) (
              Keeps-bind P _ _ (Keeps-systemctl_action P net host _ _)
                λ r. Keeps-if P _ _ _ (Keeps-pure P _) (Keeps-settle_stop_via_agent unit remove)))
        (λ e. Returns-pure P _)

  Returns-look_via_agent : (unit : String) → Returns P (look_via_agent net host unit)
  unfolding look_via_agent
  Returns-look_via_agent unit =
      Returns-try P _ _
        (Keeps-bind P _ _ (Keeps-unit_exists_via_agent P net host unit) λ exists.
          Keeps-bind P _ _ (Keeps-unit_state_via_agent P net host unit) λ state. Keeps-pure P _)
        (λ e. Returns-pure P _)

  Returns-cleanup_from_via_agent :
      (primary : String × Bool × String) (units : List String)
      → Returns P (cleanup_from_via_agent net host primary units)
  unfolding cleanup_from_via_agent
  Returns-cleanup_from_via_agent primary [] = Returns-pure P _
  Returns-cleanup_from_via_agent primary (unit ∷ rest) =
      Returns-bind P _ _ (Returns-look_via_agent unit) λ seen.
        Returns-elim P _ _ _ (Returns-pure P _) (Returns-cleanup_from_via_agent primary rest)

  pub Returns-cleanup_units_via_agent :
      (units : List String) → Returns P (cleanup_units_via_agent net host units)
  unfolding cleanup_units_via_agent
  Returns-cleanup_units_via_agent [] = Returns-pure P []
  Returns-cleanup_units_via_agent (primary ∷ rest) =
      Returns-bind P _ _ (Returns-look_via_agent primary)
        λ seen. Returns-if P _ _ _ (Returns-pure P _) (Returns-cleanup_from_via_agent _ rest)
