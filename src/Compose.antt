-- ===== src/Compose.antt =====
-- The setup with docker compose (internal/components/setup/compose.go): the ports that are waited
-- for, the container of a service, and the variables that are exported. What docker and the process
-- answer is a `Docker`. The variables that are set are a list of keys and values, in order.
pub mod Ports
pub mod Exports
pub mod Provider
pub mod Inspect
pub mod WaitPort
pub mod Ready
pub mod Client
pub mod Listener
pub mod Setup
pub mod Whole
use skywalking_infra_e2e.Base.{
  ◌>>=◌, ℕ, Bool, true, false, not, ◌&&◌, ◌||◌, Option, none, some, List, [], ◌∷◌, ◌++◌, leb, ◌==◌,
  if◌then◌else◌, set, is_nil, int_eq, Text, codes, is_empty, Result, ok, err, split, contains_byte,
  ℤ, pos, itoa, itoa_nat, atoi,
}
use skywalking_infra_e2e.Config.{Any, nil, int, string, other}

pub record Container : Type 0 where
  pub id : Text
  pub ports : List (ℕ × ℕ)

-- A port of a container is its private and its public number. `container_list` takes the two names
-- of the filter, `wait_port` and `follow_log` give their error.
pub record Docker : Type 0 where
  pub daemon_host : Result Text
  pub container_list : Text → Text → Result (List Container)
  pub wait_port : Container → ℤ → Option Text
  pub follow_log : Text → Text → Option Text
  pub set_env : Text → Text → Option Text

-- `ComposeService`: a wait strategy is its port.
pub record ComposeService : Type 0 where
  pub name : Text
  pub expect_ports : List ℤ
  pub been_follow_log : Bool

-- What a function exported, and its error.
abbrev pub Exports : Type 0
Exports = List (Text × Text) × Option Text

-- strconv.Atoi with its error; the reason is left out of the message.
unfoldable pub port_of : Text → Result ℤ
port_of s = elim (atoi s) [ some n ↦ ok n | none ↦ err (codes "strconv.Atoi: parsing " ++ s) ]

-- The second part of a text that has one, else the first.
abbrev pub port_part : List Text → Text
port_part [] = []
port_part (a ∷ []) = a
port_part (a ∷ b ∷ rest) = b

-- `getExpectPort`
unfoldable pub get_expect_port : Any → Result ℤ
get_expect_port (int n) = ok n
get_expect_port (string s) = port_of (port_part (split b':' s))
get_expect_port nil = err (codes "unknown port information: <nil>")
get_expect_port (other s) = err (codes "unknown port information: " ++ s)

-- The loop over the ports of a service.
unfoldable pub expect_ports_of : List Any → Result (List ℤ)
expect_ports_of [] = ok []
expect_ports_of (p ∷ ps) = do n ← get_expect_port p; ns ← expect_ports_of ps; ok (n ∷ ns)

-- A service without ports has no wait strategy.
abbrev pub ports_of : Option (List Any) → Result (List ℤ)
ports_of none = ok []
ports_of (some ports) = expect_ports_of ports

-- `buildComposeServices`, over the services of the compose file in the order of the iteration.
unfoldable pub build_compose_services :
    List (Text × Option (List Any)) → Result (List ComposeService)
build_compose_services [] = ok []
build_compose_services ((name, ports) ∷ rest) = do
  ns ← ports_of ports
  services ← build_compose_services rest
  ok (record { name = name; expect_ports = ns; been_follow_log = false } ∷ services)

abbrev all_digits : Text → Bool
all_digits [] = true
all_digits (c ∷ s) = leb b'0' c && leb c b'9' && all_digits s

-- The text ends in `_` and a number.
unfoldable pub ends_numbered : Text → Bool
ends_numbered [] = false
ends_numbered (c ∷ s) = (c == b'_' && not (is_empty s) && all_digits s) || ends_numbered s

-- The text behind the last line break: `.` matches none.
unfoldable pub last_line : Text → Text
last_line [] = []
last_line (c ∷ s) = if contains_byte 10 (c ∷ s) then last_line s else c ∷ s

-- `containerNamePattern.FindStringSubmatch`, its first element.
unfoldable pub whole_match : Text → Option Text
whole_match s = let line = last_line s in if ends_numbered line then some line else none

-- `getInstanceName`
unfoldable pub get_instance_name : Text → Text × ℤ
get_instance_name service_name = elim (whole_match service_name) [
  | none ↦ (service_name, pos 1)
  | some number_str ↦ elim (atoi number_str) [
    | none ↦ (service_name, pos 1)
    | some number ↦ (service_name, number)
  ]
]

-- The two names of a container, of docker-compose v1 and v2.
abbrev container_name : ℕ → Text → Text → ℤ → Text
container_name separator project service number =
    project ++ (separator ∷ (service ++ (separator ∷ itoa number)))

module _ (d : Docker) where
  first_container : Text → Text → List Container → Result Container
  first_container v1 v2 [] = err (
      codes "could not found container: "
      ++ (v1 ++ (codes "(docker-compose v1) or " ++ (v2 ++ codes "(docker-compose v2)"))))
  first_container v1 v2 (c ∷ cs) = ok c

  -- `findContainer`
  unfoldable pub find_container : Text → Text → ℤ → Result Container
  unfolding first_container
  find_container project service number =
      let v1 = container_name b'_' project service number in
      let v2 = container_name b'-' project service number in
      do containers ← d.container_list v1 v2; first_container v1 v2 containers

  -- `FindContainer`
  unfoldable pub service_container : ComposeService → Text → Result Container
  service_container s identity =
      let (service_name, num) = get_instance_name s.name in find_container identity service_name num

  -- `exportComposeEnv`
  unfoldable pub export_compose_env : Text → Text → Text → Exports
  export_compose_env key value service = elim (d.set_env key value) [
    | none ↦ ((key, value) ∷ [], none)
    | some x ↦ ([], some (codes "could not set env for " ++ (service ++ (codes ", " ++ x))))
  ]

  -- One call behind another that returned no error.
  unfoldable pub then_export : Exports → Exports → Exports
  then_export (a, none) (b, x) = (a ++ b, x)
  then_export (a, some x) rest = (a, some x)

  abbrev pub host_key : ComposeService → Text
  host_key s = s.name ++ codes "_host"

  abbrev pub port_key : ComposeService → ℕ → Text
  port_key s private = s.name ++ (codes "_" ++ itoa_nat private)

  -- The loop over the ports of the container, left at the first one that is expected.
  unfoldable pub expose_port : ComposeService → Container → ℤ → List (ℕ × ℕ) → Exports
  expose_port s c expected [] = ([], none)
  expose_port s c expected ((private, public) ∷ ports) =
      let rest = expose_port s c expected ports in
      if not (int_eq (pos private) expected) then rest else elim (d.wait_port c expected) [
        | some x ↦ ([], some x)
        | none ↦ export_compose_env (port_key s private) (itoa_nat public) s.name
      ]

  -- The loop over the wait strategies.
  unfoldable pub expose_ports_from : ComposeService → Container → List ℤ → Exports
  expose_ports_from s c [] = ([], none)
  expose_ports_from s c (n ∷ ns) =
      then_export (expose_port s c n c.ports) (expose_ports_from s c ns)

  -- `exposeComposePort`
  unfoldable pub expose_compose_port : Text → ComposeService → Exports
  expose_compose_port identity s =
      if is_nil s.expect_ports then ([], none) else elim d.daemon_host [
        | err x ↦ ([], some x)
        | ok host ↦ elim (service_container s identity) [
          | err x ↦ ([], some x)
          | ok c ↦
              then_export (export_compose_env (host_key s) host s.name)
                (expose_ports_from s c s.expect_ports)
        ]
      ]

  -- The log of a service that is not followed yet: whether it is then, and the error. A container
  -- that is not found is no error.
  unfoldable pub expose_service_log : Text → ComposeService → Bool × Option Text
  expose_service_log identity s =
      if s.been_follow_log then (true, none) else elim (service_container s identity) [
        | err x ↦ (false, none)
        | ok c ↦ elim (d.follow_log s.name c.id) [ none ↦ (true, none) | some x ↦ (false, some x) ]
      ]

  -- `exposeComposeService`
  unfoldable pub expose_compose_service : Text → List ComposeService → Exports
  unfolding expose_service_log
  expose_compose_service identity [] = ([], none)
  expose_compose_service identity (s ∷ ss) =
      let rest = expose_compose_service identity ss in
      then_export (expose_compose_port identity s)
        (then_export ([], (expose_service_log identity s).1) rest)
