-- ===== src/Kind/Logs.antt =====
-- The logs of the pods (`exposePerContainerLog` and `exposeLogs`, internal/components/setup/kind.go)
-- and the listener that tells of them (internal/components/setup/kind_listener.go). What kubernetes
-- answers is a `PodLogs`; what the listener selects is a list of events.
use skywalking_infra_e2e.Base.{
  ◌>>=◌, ℕ, ◌+◌, ◌≡◌, Bool, true, not, ◌||◌, Option, none, some, List, [], ◌∷◌, ◌++◌, arith,
  if◌then◌else◌, Text, codes, Result, ok, err,
}
use skywalking_infra_e2e.Paths.{join_path}
use skywalking_infra_e2e.Logs.{LogFollower, LogDisk, is_followed, build_log_writer}

pub record Pod : Type 0 where
  pub namespace : Text
  pub name : Text
  pub running : Bool

-- The streams of the containers of a pod: each is opened by its context, or is an error.
pub record PodLogs : Type 0 where
  pub logs_for : Pod → Result (List (Result Text))

-- What is started: the name of the writer, and a stream that is copied to it.
abbrev pub Started : Type 0
Started = List (Text × Text)

-- The loop over the containers: an error leaves it, and what was started before goes on.
unfoldable pub start_streams : Text → List (Result Text) → Started × Option Text
start_streams file [] = ([], none)
start_streams file (err x ∷ rest) = ([], some x)
start_streams file (ok stream ∷ rest) =
    let more = start_streams file rest in ((file, stream) ∷ more.0, more.1)

-- The file of a pod.
unfoldable pub log_file : Pod → Text
log_file pod = join_path pod.namespace (pod.name ++ codes ".log")

module _ (k : PodLogs) (d : LogDisk) where
  -- `exposePerContainerLog`
  unfoldable pub expose_per_container_log : LogFollower → Pod → Started × Option Text
  expose_per_container_log l pod =
      if not pod.running || is_followed l (log_file pod)
      then ([], none)
      else elim (k.logs_for pod) [
        | err x ↦ ([], some x)
        | ok streams ↦ elim (build_log_writer d l (log_file pod)) [
          | err x ↦ ([], some x)
          | ok file ↦ start_streams file streams
        ]
      ]

  -- The loop of `exposeLogs`. The follower changes while it runs, by the lines that are copied: it
  -- is given for the i-th pod.
  unfoldable pub expose_pods : (ℕ → LogFollower) → ℕ → List Pod → Started × Option Text
  expose_pods l i [] = ([], none)
  expose_pods l i (pod ∷ pods) =
      let (started, error) = expose_per_container_log (l i) pod in
      let rest = expose_pods l (i + 1) pods in
      elim error [ some x ↦ (started, some x) | none ↦ (started ++ rest.0, rest.1) ]

  -- `exposeLogs`, with what `GetAllPods` returns.
  unfoldable pub expose_logs : (ℕ → LogFollower) → Result (List Pod) → Started × Option Text
  unfolding expose_pods
  expose_logs l (err x) = ([], some x)
  expose_logs l (ok pods) = expose_pods l 0 pods

-- The objects of a search: each is converted to a pod, or is refused.
abbrev pub Object : Type 0
Object = Result Pod

-- The loop of `GetAllPods`.
unfoldable pub pods_of : List Object → Result (List Pod)
pods_of [] = ok []
pods_of (o ∷ os) = do pod ← o; pods ← pods_of os; ok (pod ∷ pods)

-- `GetAllPods`, with the infos of the search.
unfoldable pub get_all_pods : Result (List Object) → Result (List Pod)
unfolding pods_of
get_all_pods infos = do objects ← infos; pods_of objects

-- What the listener selects: an event of the watcher, or the end of its context.
pub data WatchEvent : Type 0 where
  added modified : Object → WatchEvent
  error : Text → WatchEvent
  other cancelled : WatchEvent

abbrev consumed : Object → List Pod → List Pod
consumed (ok pod) rest = pod ∷ rest
consumed (err x) rest = rest

-- The goroutine of `Listen`: the pods that the consumer gets.
unfoldable pub listen : List WatchEvent → List Pod
listen [] = []
listen (added o ∷ es) = consumed o (listen es)
listen (modified o ∷ es) = consumed o (listen es)
listen (error x ∷ es) = listen es
listen (other ∷ es) = listen es
listen (cancelled ∷ es) = []

-- `Listen`: the three calls before the goroutine is started.
unfoldable pub start_listener :
    Result Text → (Text → Result Text) → (Text → Option Text) → Option Text
start_listener object resource_version watch = elim object [
  | err x ↦ some x
  | ok o ↦ elim (resource_version o) [ err x ↦ some x | ok version ↦ watch version ]
]

-- A pod that is followed is not opened again, nor is one that does not run.
pub expose_per_container_log_once :
    (k : PodLogs) (d : LogDisk) (l : LogFollower) (pod : Pod)
    → is_followed l (log_file pod) ≡ true
    → expose_per_container_log k d l pod ≡ ([], none)
unfolding expose_per_container_log
expose_per_container_log_once k d l pod h = ground arith
