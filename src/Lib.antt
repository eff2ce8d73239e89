-- ===== src/Lib.antt =====
-- Tantor manages Kafka clusters on other machines: a FastAPI service keeps clusters, services, hosts and
-- users in a database and sends commands to the hosts over SSH or to an agent that is connected by
-- WebSocket. Modelled is the part of backend/app that restarts, starts, stops, watches and
-- upgrades services, checks ports, admits agents and keeps their sessions, admits users, and writes the
-- rules of alerts.
--
-- The files and their code (below backend/app):
--   Prelude        shared names; Prelude/Exec is Python code that changes a state and may raise, with
--                  triples for what holds when it returns and when it raises
--   Json           values of json.loads, `int`, truth of a value
--   Models         models/cluster.py, service.py, host.py: the columns that are read
--   Remote         services/ssh_manager.py and run_op of services/agent_transport.py. What the other
--                  machines answer is a parameter (`Machines`), a function of all that has happened, so
--                  a theorem for every such function holds however they behave
--   ClusterPaths   services/cluster_paths.py: install_dir, data_dir, unit_name; Assign is _slug and
--                  assign_paths_for_new_cluster, Slugs and Twice are about them
--   Transport      services/agent_transport.py: the operations of a connected agent
--   Restart        services/rolling_restart_manager.py. Defs, Managed and Run are rolling_restart,
--                  External is rolling_restart_external. Phase is an onlooker who sees only commands
--                  and answers; Safety, Health and OneByOne follow the code with it; Promise and
--                  ExternalPromise have the results. PreCheck is get_pre_restart_check and
--                  get_pre_restart_check_external, Harmless what the first of them promises;
--                  Live and Completes are runs on machines where a started unit is up in a minute
--   Ports          services/port_preflight.py. Listening is _list_listening, Checks is
--                  cluster_port_checks and check_ports, Free is find_free_port_set, Groups is about
--                  the grouping by host
--   Upgrade        services/upgrade_manager.py. Repo is the archives and get_available_upgrades, Checks
--                  and PreCheck are pre_upgrade_check, Broker is step 4 of _do_rolling_upgrade, Run the
--                  steps around it and rolling_upgrade. Stages is an onlooker who knows the stages of
--                  an upgrade; Steps, Waits, OneBroker, Harmless, Rows and Outcome follow the code with
--                  it; Looks is about the brokers' entries; Promise, Ready and Offers have the results.
--                  packaging.version is a parameter
--   Agents         services/agent_registry.py. Registry is AgentRegistry; Pending is
--                  AgentSession.send_cmd and deliver, split into the steps of the event loop.
--                  Tokens is services/agent_auth.py and the tokens of api/agents.py: Defs has
--                  mint_token, revoke_agent and _authenticate, Connect agent_ws up to its receive
--                  loop, Admitted and Later what a token is worth. bcrypt and jwt are parameters
--   Manager        services/cluster_manager.py. Units has the tables and pure helpers, Ssh and Agent
--                  the two ways to run systemctl, Cleanup cleanup_service, Lifecycle start_cluster,
--                  stop_cluster and cleanup_cluster, Status get_cluster_status. Frame and StopFrame
--                  show what keeps the rows; Started, Stopped, Quiet, Deadline, Synced, Order and
--                  Chosen have the results
--   Auth           api/deps.py, api/auth.py, services/auth_service.py. Access has tokens and their
--                  checks, Users the management of users; Versions, Admission, Revocation and Sockets
--                  are about them. The jwt library is a parameter (`encode`, `decode`)
--   Alerts         api/alerts.py: Incidents is receive_alertmanager_webhook, with the digests, times and
--                  texts of the library as a parameter (`Codec`); Recorded and Revised are about its rows.
--                  Templates, Scalars and Rules are the rules of services/alert_manager.py; Readable,
--                  Durations and Seeded are about them
--
-- The restart and the manager share the hosts and the rows of Models and name units for the same
-- services (Manager/Chosen compares them); the manager uses Ports/Listening to see ports released and
-- Transport where an agent is connected, which is what Agents/Registry answers.
--
-- Loops over a fixed number of rounds are recursion on that number, as in the code. The one loop without
-- a bound, `while time.time() <= deadline`, has 21 rounds for its 20 seconds: each round sleeps a second,
-- so with a clock that does not go back the rounds suffice (Manager/Deadline). Ports are integers with a
-- sign, as `int` gives them; no other arithmetic of the modelled code can overflow in Python.
--
-- Not modelled: logging, time-outs of single commands, the SSH connection pool, the text of commands as
-- the shell reads it, JSON encoding, sockets, threads, the times of tokens; the rest of alerting, the
-- installer of agents, deployment, monitoring and the other services and routers; the frontend, the
-- agent's binary and the installers.
pub mod Prelude
pub mod Json
pub mod Models
pub mod Remote
pub mod ClusterPaths
pub mod Restart
pub mod Ports
pub mod Auth
pub mod Alerts
pub mod Agents
pub mod Transport
pub mod Manager
pub mod Upgrade
