-- ===== src/Remote.antt =====
-- Commands on other machines (services/ssh_manager.py): the calls of `SSHManager.connect` and
-- `SSHManager.exec_command`. What the machines answer is a parameter: a function of all that has
-- happened before, so a theorem for every such function holds however they behave.
use tantor_v.Prelude.{ℕ, String, Bool, Option, none, some, List, ◌∷◌, if◌then◌else◌}
use tantor_v.Prelude.Int.{ℤ, is_zero}
use tantor_v.Prelude.Exec.{Failure, Result, ok, raised, Exec, Post, Triple}
use tantor_v.Models.{Host}

-- What `exec_command` returns: exit code, stdout and stderr.
pub record Reply : Type 0 where
  pub exit_code : ℤ
  pub stdout : String
  pub stderr : String

-- `exit_code == 0`
abbrev pub succeeded : Reply → Bool
succeeded r = is_zero r.exit_code

-- An operation of a connected agent (`agent_transport.run_op`), as far as the services use them.
pub data AgentOp : Type 0 where
  systemctl : String → String → AgentOp
  systemctl_kill : String → String → AgentOp
  is_active cat : String → AgentOp
  daemon_reload : AgentOp
  file_delete : String → AgentOp

-- {"ok": True, "result": …} or {"ok": False, "error": …}, with the keys that are read.
pub data AgentAnswer : Type 0 where
  result : Option ℤ → Option String → Option String → AgentAnswer
  error : Option String → Option String → AgentAnswer

pub data Event (C : Type 0) : Type 0 where
  ran : Host → C → Result Reply → Event C
  asked : Host → AgentOp → Result AgentAnswer → Event C
  slept : ℕ → Event C

-- The other machines; `connect` gives the exception, if it raises, `agent_connected` says whether
-- the registry has a session for a host, `clock` is `time.time()` in milliseconds.
pub record Machines (C : Type 0) : Type 0 where
  pub connect : List (Event C) → Host → Option Failure
  pub run : List (Event C) → Host → C → Result Reply
  pub agent_connected : List (Event C) → String → Bool
  pub ask : List (Event C) → Host → AgentOp → Result AgentAnswer
  pub clock : List (Event C) → ℕ

-- What has happened so far, the latest first, and the program's own state.
pub record World (C D : Type 0) : Type 0 where
  pub trace : List (Event C)
  pub db : D

abbrev opened : Option Failure → Result (Unit {0})
opened none = ok tt
opened (some e) = raised e

module _ {C D : Type 0} where
  -- `with SSHManager.connect(host…) as client:`
  unfoldable pub connect : Machines C → Host → Exec (World C D) (Unit {0})
  connect net host w = (opened (net.connect w.trace host), w)

  -- `SSHManager.exec_command(client, command)`: a call that raises may have had its effect, so it
  -- is in the trace too.
  unfoldable pub exec_command : Machines C → Host → C → Exec (World C D) Reply
  exec_command net host c w =
      let r = net.run w.trace host c in (r, record w { trace = ran host c r ∷ w.trace })

  -- `time.sleep(n)`
  unfoldable pub sleep : ℕ → Exec (World C D) (Unit {0})
  sleep n w = (ok tt, record w { trace = slept n ∷ w.trace })

  unfoldable pub on_db : (D → D) → Exec (World C D) (Unit {0})
  on_db f w = (ok tt, record w { db = f w.db })

module _ {C D : Type 0} where
  -- `agent_available(host_id)`
  unfoldable pub agent_available : Machines C → String → Exec (World C D) Bool
  agent_available net host_id w = (ok (net.agent_connected w.trace host_id), w)

  -- `run_op`, behind the test that every caller makes first.
  unfoldable pub run_op : Machines C → Host → AgentOp → Exec (World C D) AgentAnswer
  run_op net host op w =
      let answer = net.ask w.trace host op in
      if net.agent_connected w.trace host.id
      then (answer, record w { trace = asked host op answer ∷ w.trace })
      else (raised (record { class_name = "RuntimeError"; text = "agent not available" }), w)

  -- `time.time()`
  unfoldable pub now : Machines C → Exec (World C D) ℕ
  now net w = (ok (net.clock w.trace), w)

module _ {C D : Type 0} {P : World C D → Type 0} {E : World C D → Type 0} where
  -- What holds for every answer holds for the one that comes.
  pub Triple-exec_command :
      {R : Reply → World C D → Type 0} (net : Machines C) (host : Host) (c : C)
      → ((w : World C D) (r : Result Reply)
          → P w
          → Post R E (r, record w { trace = ran host c r ∷ w.trace }))
      → Triple P (exec_command net host c) R E
  unfolding exec_command
  Triple-exec_command net host c f = record { at = λ w p. f w (net.run w.trace host c) p }

  pub Triple-on_db :
      {R : Unit {0} → World C D → Type 0} (f : D → D)
      → ((w : World C D) → P w → R tt (record w { db = f w.db }))
      → Triple P (on_db f) R E
  unfolding on_db
  Triple-on_db f h = record { at = h }

  pub Triple-sleep :
      {R : Unit {0} → World C D → Type 0} (n : ℕ)
      → ((w : World C D) → P w → R tt (record w { trace = slept n ∷ w.trace }))
      → Triple P (sleep n) R E
  unfolding sleep
  Triple-sleep n h = record { at = h }

  pub Triple-connect :
      {R : Unit {0} → World C D → Type 0} (net : Machines C) (host : Host)
      → ((w : World C D) (r : Result (Unit {0})) → P w → Post R E (r, w))
      → Triple P (connect net host) R E
  unfolding connect
  Triple-connect net host h = record { at = λ w p. h w (opened (net.connect w.trace host)) p }
