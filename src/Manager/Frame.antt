-- ===== src/Manager/Frame.antt =====
-- services/cluster_manager.py: what only talks to machines keeps the rows as they are, whatever the
-- machines answer.
use tantor_v.Prelude.{ℕ, String, Bool, true, false, List, [], ◌∷◌, if◌then◌else◌}
use tantor_v.Prelude.Exec.{
  Failure, raised, Exec, pure, try_except, ◌>>=◌, Post, Triple, Post-both, Triple-pure, Triple-bind,
  Triple-try, Triple-after,
}
use tantor_v.Models.{Host}
use tantor_v.Remote.{
  AgentOp, asked, Machines, exec_command, connect, sleep, agent_available, run_op,
  Triple-exec_command, Triple-connect, Triple-sleep,
}
use tantor_v.Transport.{systemctl_action, unit_exists_via_agent, unit_state_via_agent}
use tantor_v.Manager.Ssh.{Command, ManagerDb, W, unit_exists, select_existing_unit, select_from}
use tantor_v.Manager.Agent.{select_existing_unit_via_agent, select_from_via_agent}

module _ (P : ManagerDb → Type 0) where
  abbrev pub Held : W → Type 0
  Held w = P w.db

  -- Whether it returns or raises, the code keeps `P`.
  abbrev pub Keeps : {A : Type 0} → Exec W A → Type 0
  Keeps m = Triple Held m (λ _. Held) Held

  -- The code does not raise, and keeps `P`.
  abbrev pub Returns : {A : Type 0} → Exec W A → Type 0
  Returns m = Triple Held m (λ _. Held) (λ _. ⊥)

  module _ {A B : Type 0} where
    pub Keeps-bind :
        (m : Exec W A) (f : A → Exec W B) → Keeps m → ((a : A) → Keeps (f a)) → Keeps (m >>= f)
    Keeps-bind m f t u = Triple-bind m f t u

    pub Returns-bind :
        (m : Exec W A) (f : A → Exec W B)
        → Returns m
        → ((a : A) → Returns (f a))
        → Returns (m >>= f)
    Returns-bind m f t u = Triple-bind m f t u

  module _ {A : Type 0} where
    pub Keeps-pure : (a : A) → Keeps (pure a)
    Keeps-pure a = Triple-pure a (λ w h. h)

    pub Returns-pure : (a : A) → Returns (pure a)
    Returns-pure a = Triple-pure a (λ w h. h)

    -- A handler that does not raise.
    pub Returns-try :
        (m : Exec W A) (h : Failure → Exec W A)
        → Keeps m
        → ((e : Failure) → Returns (h e))
        → Returns (try_except m h)
    Returns-try m h t u = Triple-try m h t u

    pub Keeps-elim :
        (b : Bool) (m n : Exec W A) → Keeps m → Keeps n → Keeps (elim b [ true ↦ m | false ↦ n ])
    Keeps-elim true m n t u = t
    Keeps-elim false m n t u = u

    pub Keeps-if : (b : Bool) (m n : Exec W A) → Keeps m → Keeps n → Keeps (if b then m else n)
    Keeps-if true m n t u = t
    Keeps-if false m n t u = u

    pub Returns-elim :
        (b : Bool) (m n : Exec W A)
        → Returns m
        → Returns n
        → Returns (elim b [ true ↦ m | false ↦ n ])
    Returns-elim true m n t u = t
    Returns-elim false m n t u = u

    pub Returns-if :
        (b : Bool) (m n : Exec W A) → Returns m → Returns n → Returns (if b then m else n)
    Returns-if true m n t u = t
    Returns-if false m n t u = u

    -- The same with the branches the other way round.
    pub Keeps-elim_swapped :
        (b : Bool) (m n : Exec W A) → Keeps m → Keeps n → Keeps (elim b [ false ↦ m | true ↦ n ])
    Keeps-elim_swapped false m n t u = t
    Keeps-elim_swapped true m n t u = u

    pub Returns→Keeps : (m : Exec W A) → Returns m → Keeps m
    Returns→Keeps m t = Triple-after m (λ _ _ h. h) (λ _ e. elim e [ ]) t

  module _ (net : Machines Command) (host : Host) where
    pub Keeps-exec_command : (c : Command) → Keeps (exec_command net host c)
    Keeps-exec_command c = Triple-exec_command net host c (λ w r h. Post-both Held Held r _ h h)

    pub Keeps-connect : Keeps (connect net host)
    Keeps-connect = Triple-connect net host (λ w r h. Post-both Held Held r w h h)

    pub Keeps-run_op : (op : AgentOp) → Keeps (run_op net host op)
    unfolding run_op
    Keeps-run_op op = record { at = λ w h. asked_or_not w (net.agent_connected w.trace host.id) h }
      where
        asked_or_not :
            (w : W) (b : Bool)
            → P w.db
            → Post
                (λ _. Held)
                Held
                (if b
                  then (
                    net.ask w.trace host op,
                    record w { trace = asked host op (net.ask w.trace host op) ∷ w.trace },
                  )
                  else (
                    raised (record { class_name = "RuntimeError"; text = "agent not available" }),
                    w,
                  ))
        asked_or_not w true h = Post-both Held Held (net.ask w.trace host op) _ h h
        asked_or_not w false h = h

    pub Returns-agent_available : (id : String) → Returns (agent_available net id)
    unfolding agent_available
    Returns-agent_available id = record { at = λ w h. h }

    pub Returns-sleep : (n : ℕ) → Returns (sleep {C = Command} {D = ManagerDb} n)
    Returns-sleep n = Triple-sleep n (λ w h. h)

    pub Keeps-unit_exists : (unit : String) → Keeps (unit_exists net host unit)
    unfolding unit_exists
    Keeps-unit_exists unit = Keeps-bind _ _ (Keeps-exec_command _) (λ r. Keeps-pure _)

    Keeps-select_from :
        (default : String) (units : List String) → Keeps (select_from net host default units)
    unfolding select_from
    Keeps-select_from default [] = Keeps-pure default
    Keeps-select_from default (unit ∷ rest) =
        Keeps-bind _ _ (Keeps-unit_exists unit)
          (λ b. Keeps-elim b _ _ (Keeps-pure unit) (Keeps-select_from default rest))

    pub Keeps-select_existing_unit :
        (units : List String) → Keeps (select_existing_unit net host units)
    unfolding select_existing_unit
    Keeps-select_existing_unit units = Keeps-select_from _ units

    pub Keeps-systemctl_action :
        (action unit : String) → Keeps (systemctl_action net host action unit)
    unfolding systemctl_action
    Keeps-systemctl_action action unit = Keeps-bind _ _ (Keeps-run_op _) (λ r. Keeps-pure _)

    pub Keeps-unit_exists_via_agent : (unit : String) → Keeps (unit_exists_via_agent net host unit)
    unfolding unit_exists_via_agent
    Keeps-unit_exists_via_agent unit = Keeps-bind _ _ (Keeps-run_op _) (λ r. Keeps-pure _)

    pub Keeps-unit_state_via_agent : (unit : String) → Keeps (unit_state_via_agent net host unit)
    unfolding unit_state_via_agent
    Keeps-unit_state_via_agent unit = Keeps-bind _ _ (Keeps-run_op _) (λ r. Keeps-pure _)

    Returns-select_from_via_agent :
        (default : String) (units : List String)
        → Returns (select_from_via_agent net host default units)
    unfolding select_from_via_agent
    Returns-select_from_via_agent default [] = Returns-pure default
    Returns-select_from_via_agent default (unit ∷ rest) =
        Returns-bind _ _
          (Returns-try _ _ (Keeps-unit_exists_via_agent unit) (λ e. Returns-pure false))
          (λ b. Returns-elim b _ _ (Returns-pure unit) (Returns-select_from_via_agent default rest))

    pub Returns-select_existing_unit_via_agent :
        (units : List String) → Returns (select_existing_unit_via_agent net host units)
    unfolding select_existing_unit_via_agent
    Returns-select_existing_unit_via_agent units = Returns-select_from_via_agent _ units
