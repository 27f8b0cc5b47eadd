-- ===== src/Compose/Provider.antt =====
-- The docker provider (internal/components/setup/compose_provider.go): the host of the docker
-- daemon, which is looked up once, and the mapped port of a container. What docker and the process
-- answer is a `Daemon`.
use skywalking_infra_e2e.Base.{
  ◌≡◌, refl, ◌∙◌, ◌⊎◌, inl, inr, Bool, true, false, not, ◌&&◌, ◌||◌, Option, none, some, List, [],
  ◌∷◌, arith, if◌then◌else◌, Bool-cases, Option-cases, is_nil, Text, codes, is_empty, text_eq,
  text_eq_iff, Result, ok, err, Result-cases,
}

-- The fields of `DockerProvider` that change.
pub record DockerProvider : Type 0 where
  pub host_cache : Text
  pub default_network : Text

-- `daemon_url` is the scheme and the host name of the daemon's URL. `gateways` are the gateways
-- of a network's settings.
pub record Daemon : Type 0 where
  pub tc_host : Option Text
  pub daemon_url : Result (Text × Text)
  pub in_a_container : Bool
  pub networks : Result (List Text)
  pub create_network : Option Text
  pub gateways : Text → Result (List Text)
  pub default_gateway : Result Text

abbrev pub bridge : Text
bridge = codes "bridge"

abbrev pub reaper_default : Text
reaper_default = codes "reaper_default"

abbrev has_name : Text → List Text → Bool
has_name name [] = false
has_name name (n ∷ ns) = text_eq n name || has_name name ns

-- `getDefaultNetwork`
unfoldable pub get_default_network : Daemon → Result Text
get_default_network d = elim d.networks [
  | err x ↦ err x
  | ok names ↦
      if has_name bridge names
      then ok bridge
      else if has_name reaper_default names
      then ok reaper_default
      else elim d.create_network [ some x ↦ err x | none ↦ ok reaper_default ]
]

-- The loop over the settings of a network: the first gateway that is not empty.
unfoldable pub first_gateway : List Text → Text
first_gateway [] = []
first_gateway (g ∷ gs) = let rest = first_gateway gs in if not (is_empty g) then g else rest

unfoldable pub gateway_of : Daemon → Text → Result Text
gateway_of d network = elim (d.gateways network) [
  | err x ↦ err x
  | ok gs ↦
      let ip = first_gateway gs in
      if is_empty ip then err (codes "failed to get gateway IP from network settings") else ok ip
]

-- `GetGatewayIP`: the default network is kept, and is empty where it cannot be found.
unfoldable pub get_gateway_ip : Daemon → DockerProvider → DockerProvider × Result Text
get_gateway_ip d p =
    if is_empty p.default_network
    then elim (get_default_network d) [
      | err x ↦ (record p { default_network = [] }, err x)
      | ok network ↦ (record p { default_network = network }, gateway_of d network)
    ]
    else (p, gateway_of d p.default_network)

abbrev keep : Text → DockerProvider → DockerProvider × Result Text
keep host p = (record p { host_cache = host }, ok host)

-- The address of a daemon that is reached by a socket, from within a container.
unfoldable pub ip_or_fallback : Daemon → Result Text → Text
ip_or_fallback d (ok ip) = ip
ip_or_fallback d (err x) = elim d.default_gateway [ ok ip ↦ ip | err y ↦ codes "localhost" ]

unfoldable pub by_socket : Daemon → DockerProvider → DockerProvider × Result Text
by_socket d p =
    if d.in_a_container
    then (let (p', r) = get_gateway_ip d p in keep (ip_or_fallback d r) p')
    else keep (codes "localhost") p

unfoldable pub by_scheme : Daemon → DockerProvider → Text → Text → DockerProvider × Result Text
by_scheme d p scheme hostname =
    if has_name scheme (codes "http" ∷ codes "https" ∷ codes "tcp" ∷ [])
    then keep hostname p
    else if has_name scheme (codes "unix" ∷ codes "npipe" ∷ [])
    then by_socket d p
    else (p, err (codes "could not determine host through env or docker host"))

-- `daemonHost`
unfoldable pub daemon_host : Daemon → DockerProvider → DockerProvider × Result Text
daemon_host d p = if not (is_empty p.host_cache) then (p, ok p.host_cache) else elim d.tc_host [
  | some host ↦ keep host p
  | none ↦ elim d.daemon_url [
    | err x ↦ (p, err x)
    | ok (scheme, hostname) ↦ by_scheme d p scheme hostname
  ]
]

-- A port is its number, as a text, and its protocol.
pub record NatPort : Type 0 where
  pub number : Text
  pub proto : Text

-- The test of the loop of `MappedPort`.
unfoldable pub port_matches : NatPort → NatPort × List Text → Bool
port_matches port (k, bindings) =
    text_eq k.number port.number
    && (is_empty port.proto || text_eq k.proto port.proto)
    && not (is_nil bindings)

abbrev pub first_binding : List Text → Text
first_binding [] = []
first_binding (b ∷ bs) = b

module _ (new_port : Text → Text → Result NatPort) where
  -- The loop of `MappedPort`, with nat.NewPort as an argument.
  unfoldable pub find_mapped : NatPort → List (NatPort × List Text) → Result NatPort
  find_mapped port [] = err (codes "port not found")
  find_mapped port ((k, bindings) ∷ rest) =
      let later = find_mapped port rest in
      if port_matches port (k, bindings) then new_port k.proto (first_binding bindings) else later

  -- `MappedPort`, with the network mode and the ports of the inspected container, in the order of
  -- the iteration.
  unfoldable pub mapped_port : Result (Text × List (NatPort × List Text)) → NatPort → Result NatPort
  mapped_port (err x) port = err x
  mapped_port (ok (mode, ports)) port =
      if text_eq mode (codes "host") then ok port else find_mapped port ports

  -- One of the ports matches, and the answer is made of its protocol and its first binding.
  abbrev pub Found : NatPort → NatPort → List (NatPort × List Text) → Type 0
  Found port q [] = ⊥
  Found port q ((k, bindings) ∷ rest) =
      ((port_matches port (k, bindings) ≡ true)
        × (new_port k.proto (first_binding bindings) ≡ ok q))
      ⊎ Found port q rest

  find_mapped-Found :
      (port : NatPort) (ports : List (NatPort × List Text)) {q : NatPort}
      → find_mapped port ports ≡ ok q
      → Found port q ports
  unfolding find_mapped
  find_mapped-Found port [] h = absurd (ground arith)
  find_mapped-Found port ((k, bindings) ∷ rest) {q} h =
      elim (Bool-cases (port_matches port (k, bindings))) [
        | inl e ↦ inl (e, ground arith)
        | inr e ↦ inr (find_mapped-Found port rest (ground arith))
      ]

  -- A mapped port of an inspected container is the port itself in the network mode host, else it
  -- is made of the protocol and the first binding of a port that has the same number, the same
  -- protocol where one is asked for, and a binding.
  pub mapped_port-Found :
      (mode : Text) (ports : List (NatPort × List Text)) (port : NatPort) {q : NatPort}
      → mapped_port (ok (mode, ports)) port ≡ ok q
      → ((mode ≡ codes "host") × (q ≡ port)) ⊎ Found port q ports
  unfolding mapped_port
  mapped_port-Found mode ports port {q} h = elim (Bool-cases (text_eq mode (codes "host"))) [
    | inl e ↦ inl ((text_eq_iff mode (codes "host")).0 e, ground arith)
    | inr e ↦ inr (find_mapped-Found port ports (ground arith))
  ]

cached :
    (d : Daemon) (p : DockerProvider)
    → is_empty p.host_cache ≡ false
    → daemon_host d p ≡ (p, ok p.host_cache)
unfolding daemon_host
cached d p h = ground arith

by_scheme-keeps :
    (d : Daemon) (p : DockerProvider) (scheme hostname : Text) {h : Text}
    → (by_scheme d p scheme hostname).1 ≡ ok h
    → (by_scheme d p scheme hostname).0.host_cache ≡ h
unfolding by_scheme by_socket
by_scheme-keeps d p scheme hostname e = ground arith

daemon_host-keeps :
    (d : Daemon) (p : DockerProvider) {h : Text}
    → (daemon_host d p).1 ≡ ok h
    → (daemon_host d p).0.host_cache ≡ h
unfolding daemon_host
daemon_host-keeps d p {h} e = elim (Bool-cases (is_empty p.host_cache)) [
  | inr known ↦ ground arith
  | inl open' ↦ elim (Option-cases d.tc_host) [
    | inr (host, k) ↦ ground arith
    | inl k ↦ elim (Result-cases d.daemon_url) [
      | inr (x, j) ↦ absurd (ground arith)
      | inl ((scheme, hostname), j) ↦ ground (arith, by_scheme-keeps d p scheme hostname {h = h})
    ]
  ]
]

-- A host of the daemon that was found, and is not empty, is found again, with the same state,
-- whatever docker and the process answer then.
pub daemon_host_again :
    (d later : Daemon) (p : DockerProvider) {h : Text}
    → (daemon_host d p).1 ≡ ok h
    → is_empty h ≡ false
    → daemon_host later (daemon_host d p).0 ≡ ((daemon_host d p).0, ok h)
daemon_host_again d later p {h} e full =
    let kept = daemon_host-keeps d p e in
    cached later (daemon_host d p).0 (rw kept full) ∙ rw kept refl
