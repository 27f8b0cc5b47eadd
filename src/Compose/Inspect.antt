-- ===== src/Compose/Inspect.antt =====
-- The container of docker (`DockerContainer`, internal/components/setup/compose_provider.go): what
-- is read of its inspection, its endpoints, and the commands that run in it. What docker answers
-- is an argument. Maps are lists in the order of the iteration.
use mathlib.Core.Path.{subst}
use skywalking_infra_e2e.Base.{
  ◌>>=◌, ℕ, zero, suc, ◌+◌, ◌<◌, ◌≡◌, Bool, true, false, not, Option, none, some, List, [], ◌∷◌,
  ◌++◌, arith, if◌then◌else◌, Text, codes, is_empty, text_eq, Result, ok, err,
}
use skywalking_infra_e2e.Compose.Provider.{
  NatPort, Daemon, DockerProvider, daemon_host, mapped_port,
}

-- What is read of an inspection: the settings of a network are its aliases.
pub record Inspect : Type 0 where
  pub name : Text
  pub network_mode : Text
  pub ip_address : Text
  pub ports : List (NatPort × List Text)
  pub networks : List (Text × List Text)

-- `Name`
unfoldable pub name_of : Result Inspect → Result Text
name_of inspection = do inspect ← inspection; ok inspect.name

-- `Ports`
unfoldable pub ports_of : Result Inspect → Result (List (NatPort × List Text))
ports_of inspection = do inspect ← inspection; ok inspect.ports

-- `ContainerIP`
unfoldable pub container_ip : Result Inspect → Result Text
container_ip inspection = do inspect ← inspection; ok inspect.ip_address

abbrev keys : List (Text × List Text) → List Text
keys [] = []
keys ((k, aliases) ∷ rest) = k ∷ keys rest

-- `Networks`: the names and the error.
unfoldable pub networks_of : Result Inspect → Result (List Text)
networks_of inspection = do inspect ← inspection; ok (keys inspect.networks)

-- The loop of `NetworkAliases`, which sets a key of a map: a later setting stands first.
aliases_into : List (Text × List Text) → List (Text × List Text) → List (Text × List Text)
aliases_into a [] = a
aliases_into a ((k, aliases) ∷ rest) = aliases_into ((k, aliases) ∷ a) rest

-- `NetworkAliases`
unfoldable pub network_aliases : Result Inspect → Result (List (Text × List Text))
unfolding aliases_into
network_aliases inspection = do inspect ← inspection; ok (aliases_into [] inspect.networks)

-- `MappedPort` inspects the container twice: for the network mode, and for the ports.
unfoldable pub inspected_port :
    (Text → Text → Result NatPort) → Result Inspect → Result Inspect → NatPort → Result NatPort
unfolding ports_of
inspected_port new_port first second port = elim first [
  | err x ↦ err x
  | ok inspect ↦
      if text_eq inspect.network_mode (codes "host") then ok port else elim (ports_of second) [
        | err x ↦ err x
        | ok ports ↦ mapped_port new_port (ok (inspect.network_mode, ports)) port
      ]
]

abbrev endpoint_text : Text → Text → NatPort → Text
endpoint_text proto host port =
    (if not (is_empty proto) then proto ++ codes "://" else []) ++ (host ++ (b':' ∷ port.number))

-- `PortEndpoint`, with the daemon behind `Host` and the port that `MappedPort` gives.
unfoldable pub port_endpoint :
    Daemon
    → (NatPort → Result NatPort)
    → DockerProvider
    → NatPort
    → Text
    → DockerProvider × Result Text
port_endpoint d mapped p port proto =
    let (p', host) = daemon_host d p in
    elim host [
      | err x ↦ (p', err x)
      | ok h ↦ elim (mapped port) [
        | err x ↦ (p', err x)
        | ok outer ↦ (p', ok (endpoint_text proto h outer))
      ]
    ]

abbrev pub first_port : List (NatPort × List Text) → NatPort
first_port [] = record { number = []; proto = [] }
first_port ((k, bindings) ∷ rest) = k

-- `Endpoint`
unfoldable pub endpoint :
    Daemon
    → (NatPort → Result NatPort)
    → Result Inspect
    → DockerProvider
    → Text
    → DockerProvider × Result Text
unfolding ports_of port_endpoint
endpoint d mapped inspection p proto = elim (ports_of inspection) [
  | err x ↦ (p, err x)
  | ok ports ↦ port_endpoint d mapped p (first_port ports) proto
]

-- `FollowOutput`
unfoldable pub follow_output {ℓ} : {Consumer : Type ℓ} → List Consumer → Consumer → List Consumer
follow_output consumers consumer = consumers ++ (consumer ∷ [])

-- `getDefaultGatewayIP`, with what the shell prints and strings.TrimSpace.
unfoldable pub get_default_gateway_ip : (Text → Text) → Result Text → Result Text
get_default_gateway_ip trim_space output = elim output [
  | err x ↦ err (codes "failed to detect docker host")
  | ok stdout ↦
      let ip = trim_space stdout in
      if is_empty ip then err (codes "failed to parse default gateway IP") else ok ip
]

-- What the inspection of a command tells: it runs, or its exit code.
pub data ExecState : Type 0 where
  runs : ExecState
  exited : ℕ → ExecState

-- The answers to a command: its id, the error of its start, and its i-th inspection.
pub record ExecWorld : Type 0 where
  pub create : List Text → Result Text
  pub start : Text → Option Text
  pub inspect : Text → ℕ → Result ExecState

-- The loop of `Exec` from the i-th inspection on, on fuel.
unfoldable pub exec_loop : ExecWorld → ℕ → Text → ℕ → Option (Result ℕ)
exec_loop w zero id i = none
exec_loop w (suc fuel) id i =
    let rest = exec_loop w fuel id (suc i) in
    elim (w.inspect id i) [
      | err x ↦ some (err x)
      | ok state ↦ elim state [ runs ↦ rest | exited exit_code ↦ some (ok exit_code) ]
    ]

-- `Exec`
unfoldable pub exec : ExecWorld → ℕ → List Text → Option (Result ℕ)
unfolding exec_loop
exec w fuel cmd = elim (w.create cmd) [
  | err x ↦ some (err x)
  | ok id ↦ elim (w.start id) [ some x ↦ some (err x) | none ↦ exec_loop w fuel id 0 ]
]

abbrev is_running : Result ExecState → Bool
is_running (ok runs) = true
is_running _ = false

module _ (w : ExecWorld) where
  moved :
      (id : Text) {a b : ℕ} {r : Result ExecState} → a ≡ b → w.inspect id a ≡ r → w.inspect id b ≡ r
  moved id {a} {b} {r} same h = subst (λ k. w.inspect id k ≡ r) same h

  -- The first inspection that does not find the command running gives the result.
  exec_loop-first :
      (fuel i k : ℕ) (id : Text) {exit_code : ℕ}
      → ((j : ℕ) → j < k → w.inspect id (i + j) ≡ ok runs)
      → w.inspect id (i + k) ≡ ok (exited exit_code)
      → k < fuel
      → exec_loop w fuel id i ≡ some (ok exit_code)
  unfolding exec_loop
  exec_loop-first zero i k id before h l = absurd (omega (arith, l))
  exec_loop-first (suc fuel) i zero id {exit_code} before h l =
      let now = moved id {a = i + 0} {b = i} (omega arith) h in ground arith
  exec_loop-first (suc fuel) i (suc k) id {exit_code} before h l =
      let now = moved id {a = i + 0} {b = i} (omega arith) (before 0 (omega arith)) in
      let rest =
        exec_loop-first fuel (suc i) k id {exit_code = exit_code}
          (λ j m. moved id {a = i + suc j} (omega arith) (before (suc j) (omega (arith, m))))
          (moved id {a = i + suc k} (omega arith) h) (omega arith) in
      ground arith

  -- The exit code of a command is that of the first inspection that does not find it running.
  pub exec_first :
      (fuel k : ℕ) (cmd : List Text) {id : Text} {exit_code : ℕ}
      → w.create cmd ≡ ok id
      → w.start id ≡ none
      → ((j : ℕ) → j < k → w.inspect id j ≡ ok runs)
      → w.inspect id k ≡ ok (exited exit_code)
      → k < fuel
      → exec w fuel cmd ≡ some (ok exit_code)
  unfolding exec
  exec_first fuel k cmd {id} {exit_code} c s before h l =
      let last =
        exec_loop-first fuel 0 k id {exit_code = exit_code}
          (λ j m. moved id {a = j} (omega arith) (before j m)) (moved id {a = k} (omega arith) h)
          l in
      ground arith
