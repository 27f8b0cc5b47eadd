-- ===== src/Kind/Listener.antt =====
-- The listener of the pods (internal/components/setup/kind_listener.go): what it is made of, its
-- conversion of objects, and its end.
use skywalking_infra_e2e.Base.{
  ◌≡◌, refl, Bool, true, false, List, [], ◌∷◌, ◌++◌, map, if◌then◌else◌, Text, Result, ok, err,
}
use skywalking_infra_e2e.Kind.Logs.{
  Pod, Object, WatchEvent, added, modified, error, other, cancelled, listen, get_all_pods,
}

-- `KindContainerListener`: its context is done or not. The client is that of the cluster.
pub record KindContainerListener {ℓ} (ClusterInfo : Type ℓ) : Type ℓ where
  pub client_getter : ClusterInfo
  pub done : Bool

module _ {ℓ} {ClusterInfo : Type ℓ} where
  -- `NewKindContainerListener`
  unfoldable pub new_kind_container_listener : ClusterInfo → KindContainerListener ClusterInfo
  new_kind_container_listener client_getter = record { client_getter = client_getter; done = false }

  -- `Stop`
  unfoldable pub stop_kind_listener :
      KindContainerListener ClusterInfo → KindContainerListener ClusterInfo
  stop_kind_listener l = record l { done = true }

-- An event of the watcher with the content of its object.
pub data RawEvent : Type 0 where
  raw_added raw_modified : Text → RawEvent
  raw_error : Text → RawEvent
  raw_other : RawEvent

module _ (convert : Text → Result Pod) where
  -- `unstructuredToPod`, with the converter of the library as an argument.
  unfoldable pub unstructured_to_pod : Text → Object
  unstructured_to_pod content = convert content

  -- An event as the loop of `Listen` sees it.
  unfoldable pub event_of : RawEvent → WatchEvent
  event_of (raw_added content) = added (unstructured_to_pod content)
  event_of (raw_modified content) = modified (unstructured_to_pod content)
  event_of (raw_error x) = error x
  event_of raw_other = other

  -- The pods that the consumer gets of a listener: it selects the events, and then the end of its
  -- context where that is done.
  unfoldable pub listen_to {ℓ} :
      {ClusterInfo : Type ℓ}
      → KindContainerListener ClusterInfo
      → List RawEvent
      → List RawEvent
      → List Pod
  listen_to l before behind = listen (
      map event_of before
      ++ (if l.done then cancelled ∷ map event_of behind else map event_of behind))

  -- `GetAllPods` over the contents of the infos.
  unfoldable pub all_pods_of : Result (List Text) → Result (List Pod)
  all_pods_of infos =
      get_all_pods
        (elim infos [ err x ↦ err x | ok contents ↦ ok (map unstructured_to_pod contents) ])

-- What is behind the end of the context is not seen.
listen_cancelled :
    (es later : List WatchEvent)
    → listen (es ++ (cancelled ∷ later)) ≡ listen (es ++ (cancelled ∷ []))
unfolding listen
listen_cancelled [] later = refl
listen_cancelled (added o ∷ es) later = cc (listen_cancelled es later)
listen_cancelled (modified o ∷ es) later = cc (listen_cancelled es later)
listen_cancelled (error x ∷ es) later = listen_cancelled es later
listen_cancelled (other ∷ es) later = listen_cancelled es later
listen_cancelled (cancelled ∷ es) later = refl

-- A listener that was stopped gives the consumer nothing more.
pub listen_to-stop_kind_listener {ℓ} :
    {ClusterInfo : Type ℓ} (convert : Text → Result Pod) (l : KindContainerListener ClusterInfo)
    (before behind : List RawEvent)
    → listen_to convert (stop_kind_listener l) before behind
      ≡ listen_to convert (stop_kind_listener l) before []
unfolding listen_to stop_kind_listener
listen_to-stop_kind_listener convert l before behind =
    listen_cancelled (map (event_of convert) before) (map (event_of convert) behind)
