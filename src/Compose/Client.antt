-- ===== src/Compose/Client.antt =====
-- The docker client of the provider (internal/components/setup/compose_provider.go): the calls that
-- answer what `Daemon` and the inspection of a container hold. What the client answers is a
-- `DockerClient`.
use skywalking_infra_e2e.Base.{
  ℕ, ◌≡◌, Bool, true, false, Option, none, List, [], ◌∷◌, arith, ◌==◌, if◌then◌else◌, Text, codes,
  is_empty, text_eq, Result, ok,
}
use skywalking_infra_e2e.Environment.Shell.{Stat, exists, not_exist, stat_failed}
use skywalking_infra_e2e.Compose.Provider.{
  DockerProvider, Daemon, NatPort, bridge, reaper_default, first_gateway, get_default_network,
  gateway_of, get_gateway_ip, ip_or_fallback, by_socket, by_scheme, daemon_host,
}
use skywalking_infra_e2e.Compose.Inspect.{Inspect, inspected_port}
use skywalking_infra_e2e.Compose.WaitPort.{Dial}

-- `NetworkRequest`, with the fields that the provider sets.
pub record NetworkRequest : Type 0 where
  pub driver : Text
  pub name : Text
  pub labels : List (Text × Text)
  pub attachable : Bool

-- The options of a request for the logs.
pub record LogsOptions : Type 0 where
  pub show_stdout : Bool
  pub show_stderr : Bool

-- `DockerContainer`, less its consumers.
pub record DockerContainer : Type 0 where
  pub id : Text
  pub image : Text

-- A network is the gateways of its settings; `network_create` gives its error, and `daemon_url` the
-- scheme and the host name of the daemon.
pub record DockerClient : Type 0 where
  pub container_inspect : Text → Result Inspect
  pub container_logs : Text → LogsOptions → Result Text
  pub network_list : Result (List Text)
  pub network_create : NetworkRequest → Option Text
  pub network_inspect : Text → Bool → Result (List Text)
  pub daemon_url : Result (Text × Text)

abbrev pub testcontainer_label : Text
testcontainer_label = codes "org.testcontainers.golang"

-- `inAContainer`, by what os.Stat tells of a path.
unfoldable pub in_a_container : (Text → Stat) → Bool
in_a_container stat = elim (stat (codes "/.dockerenv")) [
  | exists ↦ true
  | not_exist ↦ false
  | stat_failed x ↦ false
]

-- The error of a dial: that of a system call, with its number, or another one.
pub data DialError : Type 0 where
  system_call : ℕ → Text → DialError
  other : Text → DialError

abbrev pub conn_refused : ℕ
conn_refused = 111

-- `isConnRefusedErr`
unfoldable pub is_conn_refused_err : ℕ → Bool
is_conn_refused_err errno = errno == conn_refused

-- What the loop of the external check sees of an error.
unfoldable pub dial_of : DialError → Dial
dial_of (system_call errno x) =
    if is_conn_refused_err errno then Dial.refused else Dial.dial_failed x
dial_of (other x) = Dial.dial_failed x

module _ (c : DockerClient) where
  -- `inspectContainer`
  unfoldable pub inspect_container : DockerContainer → Result Inspect
  inspect_container k = c.container_inspect k.id

  -- `Logs`
  unfoldable pub logs : DockerContainer → Result Text
  logs k = c.container_logs k.id (record { show_stdout = true; show_stderr = true })

  -- `GetNetwork`
  unfoldable pub get_network : NetworkRequest → Result (List Text)
  get_network req = c.network_inspect req.name true

  abbrev pub named : Text → NetworkRequest
  named name = record { driver = []; name = name; labels = []; attachable = false }

  -- The network that `getDefaultNetwork` creates.
  abbrev pub reaper_network : NetworkRequest
  reaper_network = record {
    driver = bridge;
    name = reaper_default;
    labels = (testcontainer_label, codes "true") ∷ [];
    attachable = true;
  }

  module _ (tc_host : Option Text) (stat : Text → Stat) (default_gateway : Result Text) where
    -- The daemon as the client sees it.
    unfoldable pub daemon_of : Daemon
    daemon_of = record {
      tc_host = tc_host;
      daemon_url = c.daemon_url;
      in_a_container = in_a_container stat;
      networks = c.network_list;
      create_network = c.network_create reaper_network;
      gateways = λ name. get_network (named name);
      default_gateway = default_gateway;
    }

    -- `Host`
    unfoldable pub host : DockerProvider → DockerProvider × Result Text
    host p = daemon_host daemon_of p

    -- For a daemon that is reached by a socket, from within a container, the host is the first
    -- gateway of the network bridge, where that network is there and has one.
    pub host-first_gateway :
        (p : DockerProvider) (hostname : Text) (names gateways : List Text)
        → p.host_cache ≡ []
        → p.default_network ≡ []
        → tc_host ≡ none
        → c.daemon_url ≡ ok (codes "unix", hostname)
        → stat (codes "/.dockerenv") ≡ exists
        → c.network_list ≡ ok (bridge ∷ names)
        → c.network_inspect bridge true ≡ ok gateways
        → is_empty (first_gateway gateways) ≡ false
        → (host p).1 ≡ ok (first_gateway gateways)
    unfolding host daemon_of in_a_container get_network daemon_host by_scheme by_socket
        ip_or_fallback get_gateway_ip get_default_network gateway_of text_eq
    host-first_gateway p hostname names gateways a b d e f g h k = ground arith

  -- `MappedPort` of a container.
  unfoldable pub mapped_port_of :
      (Text → Text → Result NatPort) → DockerContainer → NatPort → Result NatPort
  mapped_port_of new_port k port =
      inspected_port new_port (inspect_container k) (inspect_container k) port
