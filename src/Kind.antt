-- ===== src/Kind.antt =====
-- The setup with kind (internal/components/setup/kind.go): the ports that are forwarded, the
-- waits, the images, and the order of the setup. What kubernetes, docker and kind answer are
-- arguments. What the setup does is a list of events.
pub mod Ports
pub mod Logs
pub mod Listener
pub mod Forward
pub mod Manifests
pub mod Cluster
pub mod Setup
pub mod Order
pub mod Whole
use skywalking_infra_e2e.Base.{
  ◌>>=◌, ℕ, ◌+◌, ◌^◌, Bool, false, not, ◌&&◌, ◌||◌, Option, none, some, List, [], ◌∷◌, ◌++◌, ◌==◌,
  if◌then◌else◌, length, set, all, is_nil, int_eq, Text, codes, is_empty, text_eq, Result, ok, err,
  split, contains_byte, replace_byte, ℤ, itoa, atoi, parse_int,
}
use skywalking_infra_e2e.Config.{Wait}

-- `kindPort`
pub record KindPort : Type 0 where
  pub input_port : Text
  pub real_port : ℤ
  pub wait_expose : Text

-- The look-ups of kubectl: a port of the pod by its name, a port of the service by its name, and
-- the port of the pod behind a port of the service.
pub record PortLookup : Type 0 where
  pub container_by_name : Text → Result ℤ
  pub service_by_name : Text → Result ℤ
  pub container_by_service : ℤ → Result ℤ

abbrev pub first_part : List Text → Text
first_part [] = []
first_part (a ∷ rest) = a

abbrev pub second_part : List Text → Text
second_part (a ∷ b ∷ rest) = b
second_part _ = []

-- What to expose, and the remote port.
unfoldable pub need_expose : Text → Text × Text
need_expose port =
    if contains_byte b':' port then (port, second_part (split b':' port)) else (b':' ∷ port, port)

-- The remote port of an object that is no service.
pod_port : PortLookup → Text → Result ℤ
pod_port l remote_port = elim (atoi remote_port) [
  | some n ↦ ok n
  | none ↦ l.container_by_name remote_port
]

-- strconv.ParseInt with 32 bits, else the name.
service_port : PortLookup → Text → Result ℤ
service_port l remote_port = elim (parse_int (2 ^ 31) remote_port) [
  | some n ↦ ok n
  | none ↦ l.service_by_name remote_port
]

-- The text to expose once the real port is known.
unfoldable pub expose_real : Text → Text → Text → ℤ → Text
expose_real port need remote_port real =
    if not (text_eq (itoa real) remote_port)
    then (if contains_byte b':' port then first_part (split b':' port) else [])
      ++ (b':' ∷ itoa real)
    else need

-- `buildKindPort`, by whether the object is a service.
unfoldable pub build_kind_port : PortLookup → Bool → Text → Result KindPort
unfolding pod_port service_port
build_kind_port l is_service port =
    let (need, remote_port) = need_expose port in
    if not is_service
    then (do
      n ← pod_port l remote_port
      ok (record { input_port = remote_port; real_port = n; wait_expose = need }))
    else (do
      portnum ← service_port l remote_port
      real ← l.container_by_service portnum
      ok (record {
        input_port = remote_port;
        real_port = real;
        wait_expose = expose_real port need remote_port real;
      }))

-- The name of a resource in a variable.
unfoldable pub resource_name : Text → Text
resource_name r = replace_byte b'-' b'_' (replace_byte b'/' b'_' r)

-- The exports for a remote port that is forwarded to a local one.
unfoldable pub port_exports : Text → ℤ → ℤ → List KindPort → List (Text × Text)
port_exports name local remote [] = []
port_exports name local remote (k ∷ ks) =
    let rest = port_exports name local remote ks in
    if int_eq remote k.real_port then (name ++ (b'_' ∷ k.input_port), itoa local) ∷ rest else rest

unfoldable pub all_port_exports : Text → List (ℤ × ℤ) → List KindPort → List (Text × Text)
all_port_exports name [] ks = []
all_port_exports name ((local, remote) ∷ ports) ks =
    port_exports name local remote ks ++ all_port_exports name ports ks

-- The variables that are exported once the ports are forwarded, where os.Setenv does not fail.
unfoldable pub resource_exports : Text → List (ℤ × ℤ) → List KindPort → List (Text × Text)
resource_exports resource exported ks =
    (resource_name resource ++ codes "_host", codes "localhost")
    ∷ all_port_exports (resource_name resource) exported ks

-- `checkKubeConfig`
unfoldable pub check_kube_config : Text → Text → Option Text
check_kube_config kind_config_path kube_config_path =
    if is_empty kind_config_path && is_empty kube_config_path
    then some (codes "no kind config file and kubeconfig file was provided")
    else if not (is_empty kind_config_path) && not (is_empty kube_config_path)
    then some (codes "the kind config file and kubeconfig file cannot be provided at the same time")
    else none

-- What `getWaitOptions` sets in the flags of the wait. The timeout is a constant.
pub record WaitFlags : Type 0 where
  pub namespace : Text
  pub for_condition : Text
  pub args : List Text
  pub label_selector : Option Text
  pub all : Bool

-- `getWaitOptions`, up to the call of the library that makes the options.
unfoldable pub get_wait_options : Wait → Result WaitFlags
get_wait_options w =
    if contains_byte b'/' w.resource && not (is_empty w.label_selector)
    then err (
        codes
          "when passing resource.group/resource.name in Resource, the labelSelector can not be set at the same time")
    else if is_empty w.resource
    then err (codes "resource must be provided in wait block")
    else ok (record {
      namespace = w.namespace;
      for_condition = w.for;
      args = w.resource ∷ [];
      label_selector = if not (is_empty w.label_selector) then some w.label_selector else none;
      all = is_empty w.label_selector && not (contains_byte b'/' w.resource);
    })

abbrev has_tag : Text → List Text → Bool
has_tag tag [] = false
has_tag tag (t ∷ ts) = text_eq tag t || has_tag tag ts

abbrev has_image : Text → List (List Text) → Bool
has_image tag [] = false
has_image tag (tags ∷ summary) = has_tag tag tags || has_image tag summary

-- `listLocalImages`, with the tags of each image of the list: whether a tag is in the set.
unfoldable pub list_local_images : Result (List (List Text)) → Result (Text → Bool)
list_local_images summary = do images ← summary; ok (λ tag. has_image tag images)

-- The filter of `pullImages`: the images that are not there.
unfoldable pub missing_images : (Text → Bool) → List Text → List Text
missing_images local [] = []
missing_images local (tag ∷ tags) =
    let rest = missing_images local tags in if local tag then rest else tag ∷ rest

-- How many images were pulled.
unfoldable pub pulled : (Text → Bool) → List Text → ℕ
pulled pull [] = 0
pulled pull (image ∷ images) = (if pull image then 1 else 0) + pulled pull images

-- `pullImages`: the images are pulled by goroutines that share the count only, so that their order
-- does not matter. `client_error` is that of the client of docker; `pull` says whether an image
-- could be pulled.
unfoldable pub pull_images :
    Option Text → Result (Text → Bool) → (Text → Bool) → List Text → Option Text
unfolding missing_images
pull_images client_error local_images pull images = elim client_error [
  | some x ↦ some x
  | none ↦ elim local_images [
    | err x ↦ some (codes "list local images error: " ++ x)
    | ok local ↦
        if is_nil (missing_images local images)
        then none
        else if not
            (pulled pull (missing_images local images) == length (missing_images local images))
        then some (codes "can not pull all images")
        else none
  ]
]
