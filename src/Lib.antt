-- ===== src/Lib.antt =====
-- TeslaMate Watchdog: a program that watches a TeslaMate installation, publishes what it finds over
-- MQTT, and restarts the TeslaMate container when a restart can help and is safe.
--
-- The parts, and the files that model them. One cycle (`check_once`) gathers an observation, which
-- the recovery controller takes while a recovery is in progress and the state machine otherwise; a
-- transition of the machine may lead, through the guard, to a restart.
-- - StateMachine.antt: src/state_machine.py. States.antt has `State` and the sets of states;
--   `evaluate`, `step` and `force_state` carry the names of the code, `observe_healthy` and
--   `observe_failure` are `_observe_healthy` and `_observe_failure`. Its theorems are in
--   StateMachine/Decision.antt and StateMachine/Confirmation.antt.
-- - RestartManager.antt: src/restart_manager.py. `record_restart` is `record`; `load` and `recreate`
--   (`_load` and the constructor) are in RestartManager/Persistence.antt. The guard is in
--   RestartManager/Guard.antt, the limits on all restarts in RestartManager/Limits.antt.
-- - Recovery.antt: src/recovery.py. `World` holds the objects that the controller shares with the
--   watchdog, with what left the program in order. Recovery/Outcome.antt and Recovery/Ending.antt
--   say how a recovery ends, Recovery/Held.antt that the machine is held meanwhile.
--   Recovery/Raising.antt has the same operations where publishing an event may raise: an action
--   returns a result or none, with the world that it leaves. Raising/Same.antt below it shows that
--   the two agree if nothing raises, Raising/Rules.antt is a small program logic, and
--   Raising/Committed.antt, Raising/Exits.antt and Raising/Held.antt apply it.
-- - Watchdog.antt: src/main.py, as `build_watchdog` composes it, with all collaborators present.
--   `Cycle` (Watchdog/Data.antt) holds what the world outside answers in one cycle; `run` has the latest cycle first.
--   Its theorems: Watchdog/Safety.antt and Watchdog/Retry.antt on when a restart is tried,
--   Watchdog/Held.antt on RECOVERING,
--   Watchdog/Announce.antt and Watchdog/Topics.antt on what is published. Watchdog/Snapshot.antt is
--   the dict of the containers and the log that a cycle leaves for the bundles.
--   Watchdog/Raising.antt is the middle of a cycle where publishing an event may raise.
-- - DockerClient.antt: src/docker_client.py, with its data in DockerClient/Api.antt,
--   `check_database` and `tcp_probe` in DockerClient/Database.antt, `demultiplex` and `logs` in
--   DockerClient/Logs.antt. `Proxy` holds the answers of the socket proxy.
-- - HttpCheck.antt: src/http_check.py, with what a sign-in page is in HttpCheck/SignIn.antt and what
--   each category means in HttpCheck/Classes.antt. LogClassifier.antt: src/log_classifier.py, with `from_file`
--   in LogClassifier/FromFile.antt.
-- - MqttClient.antt: src/mqtt_client.py, with its data in MqttClient/Cars.antt, the constructor and
--   TLS in MqttClient/Connection.antt, and the last retained message of a topic, which is what a
--   broker keeps, in MqttClient/Retained.antt.
-- - Config.antt: the record and the derived topics of src/config.py. Config/Env.antt reads single
--   variables, Config/FromEnv.antt is `from_env`, in groups in the order of the code,
--   Config/Validation.antt is `validate`, and Config/Summary.antt is `summary`; Config/Result.antt
--   has the outcomes, a `ConfigError` or another exception. Config/Bounds.antt and
--   Config/Printed.antt have theorems.
-- - Diagnostics.antt: the writer of src/diagnostics.py over the entries of its directory, with
--   theorems in Diagnostics/Names.antt and Diagnostics/Bundles.antt, and in Diagnostics/Kept.antt
--   over any captures and starts of the program. Diagnostics/Redaction.antt has `_REDACTIONS`,
--   three substitutions on texts, and `re.sub`; Tokens.antt, Clean.antt, Passes.antt,
--   Labelled.antt and Hidden.antt below it follow a secret through them. Recovery/Bundled.antt
--   lets the recovery controller call the writer.
-- - HaDiscovery.antt: src/ha_discovery.py. Messages.antt, Available.antt and Served.antt below it
--   compare it with what the rest of the program publishes.
-- - Main.antt: `main` of src/main.py, from the environment to the goodbye. A round of the loop of
--   `run` is `attempt` of Main/Attempt.antt: a cycle in which `Trouble` says what raises, and which
--   calls of the MQTT client (Main/Callbacks.antt) come in its middle; Main/Calm.antt compares it
--   with `check_once`. More calls come between cycles. Theorems over the whole of `main`:
--   Main/Budget.antt on the limits of restarts, Main/Announced.antt, Main/Recovering.antt and
--   Main/Outcomes.antt.
-- - LoggingSetup.antt: src/logging_setup.py, on any record.
-- - Events.antt: the events and the incident bundles; Events/Payloads.antt their JSON, with the
--   `as_dict` methods of several files. Python.antt: what is taken from Python as a parameter.
-- - Shared.antt: names, numbers, texts, JSON values and lemmas that the parts share. Examples.antt:
--   the theorems applied to concrete inputs.
--
-- Times are natural numbers of microseconds, wall-clock or monotonic; the rounding of floats is not
-- modelled, nor are negative numbers in a history file. Where the code takes `max(0.0, …)` of a
-- difference, subtraction on naturals stops at 0. Three functions run on fuel: `demultiplex_from`
-- on the number of bytes and 1 (each round takes 8 bytes or more off), the printing of a number on
-- the number and 1, and `free_from` on the number of entries and 1 (each candidate that is taken is
-- another entry).
--
-- Parameters, of which nothing is assumed but where a theorem says so: the methods of Python in
-- `Python`, with the values of decimal digits and the printing of JSON; the configured sign-in
-- pattern and the log patterns, as tests on texts; `re.compile`; a new TLS context; for the
-- writer, the substitutions of `redact`; the word characters of `\w`; `float` of a text and `str`
-- of a JSON value in the history file; what HTTP, Docker, sockets, clocks and the file system
-- answer. The fixed patterns of a sign-in form, of a duration and of the secrets in a log are
-- written out. `repr` of a text is modelled for texts without quotes and escapes.
--
-- Not modelled: the records that the parts log, which no part reads; calls of the MQTT client
-- while the cars are read or a message is published, the wait for its connection, the delivery of
-- messages; signals; an exception in
-- logging, in the recording of a restart or between the writes of a file, and what a write or a
-- removal that fails leaves behind.
pub mod Shared
pub mod Python
pub mod Config
pub mod HttpCheck
pub mod StateMachine
pub mod RestartManager
pub mod DockerClient
pub mod MqttClient
pub mod LogClassifier
pub mod Events
pub mod Diagnostics
pub mod HaDiscovery
pub mod Main
pub mod LoggingSetup
pub mod Recovery
pub mod Watchdog
mod Examples
