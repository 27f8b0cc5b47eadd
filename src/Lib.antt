-- ===== src/Lib.antt =====
-- Verification library of skywalking-infra-e2e, a tool that sets up an environment (a kind
-- cluster or docker compose), triggers requests, verifies what the services answer, and cleans up.
--
-- The parts of the program and the files that model them. Paths are from the repository's root.
--   Cli        cmd/e2e/main.go and `Execute`: the commands' own functions and the exit status.
--   Run        commands/run/run.go: setup, trigger, verify and cleanup in order, with the deferred
--              cleanup. What the stages return is a record `Stages`; what is done is a list of
--              events. Run/Whole is the same function over the other parts as they are modelled,
--              and Run/Whole/EndToEnd and Run/Whole/Fresh join it with the setups of both environments.
--   Trigger    internal/components/trigger/http.go and `CreateTriggerAction`: the goroutine of
--              `Do` is a state `Worker`, stepped by the ticks, with the answers, and by `Stop`;
--              Trigger/Request is `request`, with the answers
--              of net/http, and Trigger/Command is commands/trigger/trigger.go.
--   Verify     commands/verify/verify.go. Verify/Serial is `verifyCasesSerially`,
--              Verify/Concurrent is `verifyCasesConcurrently` with one goroutine for each case and
--              the context that they share, Verify/Command is `DoVerifyAccordingConfig`,
--              Verify/Spec says when a case is verified (Verify/Spec/Files
--              for cases with their data in files), and Verify/Contract what a command that
--              ends promises of all cases.
--   Verifier   internal/components/verifier/verifier.go: `Verify`; Verifier/Functions is funcs.go,
--              the functions of the templates.
--   Output     pkg/output: the results, the printer, and the summary in YAML.
--   Config     internal/config/e2eConfig.go: the records of e2e.yaml, intervals and timeouts.
--   Config/Load internal/config/globalConfig.go: the file, and the cases of the included files.
--   Environment internal/util/utils.go: `ExportEnvVars` and `envOverwrite`, and
--              Environment/Shell `ExecuteCommand` with the environment that it gives back.
--   Steps      internal/components/setup/common.go: the steps of a setup and their timeout;
--              Steps/Commands is `executeCommandsAndWait`, Steps/WaitSet the goroutines that share
--              a `WaitSet` (internal/util/waitSet.go), as a step relation, and Steps/Parts the
--              calls of both.
--   Compose    internal/components/setup/compose.go: ports, container names, exported variables;
--              Compose/Setup is `ComposeSetup` with compose_listener.go, and Compose/Provider,
--              Compose/Inspect and Compose/WaitPort are compose_provider.go: the daemon's host and
--              mapped ports, what is read of a container, and `WaitPort`; Compose/Ready joins them;
--              Compose/Client is the docker client that answers them, Compose/Listener the end of
--              the listener, and Compose/Whole the setup with its steps.
--   Kind       internal/components/setup/kind.go: ports, waits, images; Kind/Setup is `KindSetup`,
--              Kind/Forward the forwarding of ports up to `KindCleanNotify`, Kind/Logs the logs of
--              the pods with kind_listener.go, Kind/Listener the end of the listener, Kind/Manifests
--              and Kind/Cluster are internal/util/k8s.go; Kind/Whole is the setup with all of
--              these.
--   Logs       internal/util/env_log.go: the log follower and its files.
--   SetupCommand commands/setup/setup.go: the setup command.
--   Root       commands/root.go and internal/util/io.go: what runs before each command.
--   Teardown   commands/cleanup and internal/components/cleanup: the cleanup of both environments.
--   Paths      internal/util/config.go: `ResolveAbs`, over path/filepath.
--   Base       what the parts share: Go strings as lists of bytes, results, 64-bit integers,
--              strconv and strings.
--   Tests      runs at concrete inputs.
--
-- The outside. Files, the shell and the clock answer by a `World`, one for each attempt of each
-- case, so that an answer may change between two attempts. The YAML library, the template engine
-- and go-cmp are the operations of an `Engine`. time.ParseDuration, os.ExpandEnv and the printing
-- of a duration are arguments. The working directory may be unknown. The clauses of path/filepath,
-- strings, strconv, regexp and os.Setenv follow their documentation on Unix. Docker, kind, kubectl
-- and the YAML library are records of what they answer. Where an error message holds a text that
-- only a library knows, the text comes from the record, or is left out, as the definition says.
--
-- Concurrency. A schedule is a list of turns. A goroutine takes one step in a turn, from a look
-- at the shared context, or a write to it, to the next. Two goroutines share nothing else of the
-- model. In the program their queries also share the environment, which each of them reads and
-- exports variables to: what a query answers is the `World` of its attempt, an argument. A run
-- has a result once all of them are finished. `Stop` of the trigger puts a message in a channel
-- and returns; its goroutine takes the message later, behind any number of ticks. The goroutines
-- of a `WaitSet` and the forwarders of kind are step relations. Each listener shares a variable
-- with its setup: what it selects (compose) or writes there (kind) between a call and the test
-- behind it is an argument.
--
-- Bounds and fuel. Loops over the retries count the rounds left, and start with all of them: the
-- model has no run out of fuel there. The includes of a case are converted on fuel, one for each
-- level of inclusion. A retry count is a number that does not wrap around when the loop adds one
-- to it. A duration is a 64-bit number of nanoseconds and its multiplication wraps around. The
-- three loops of the wait for a port and the loop of a command in a container run on fuel, one for
-- each attempt: the loops of the wait end with their context, that of the command with the command.
--
-- Not modelled: the parsing of the command line, the log, sleeping between two attempts, the
-- copy of Go's template package, the discovery client of kubernetes, and the copy of a container's
-- output into its file, which a library does.
pub mod Cli
pub mod Base
pub mod Output
pub mod Paths
pub mod Config
pub mod Verifier
pub mod Verify
pub mod Run
pub mod Trigger
pub mod Logs
pub mod Compose
pub mod Environment
pub mod Kind
pub mod Steps
pub mod SetupCommand
pub mod Root
pub mod Teardown
pub mod Tests
