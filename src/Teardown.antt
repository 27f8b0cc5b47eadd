-- ===== src/Teardown.antt =====
-- The cleanup command (commands/cleanup/cleanup.go) and the two cleanups
-- (internal/components/cleanup). What kind, docker compose and the disk answer are arguments.
pub mod Retries
use skywalking_infra_e2e.Base.{
  ◌>>=◌, ℕ, zero, suc, ◌+◌, Bool, true, false, Option, none, some, List, [], ◌∷◌, ◌++◌,
  if◌then◌else◌, is_some, Text, codes, is_empty, text_eq, Result, ok, err,
}

-- `for i := 0; i < maxRetry; i++` with the rounds left, the number of the attempt, and `err`.
unfoldable pub delete_attempts : (ℕ → Option Text) → ℕ → ℕ → Option Text → Option Text
delete_attempts run zero i error = error
delete_attempts run (suc rounds) i error =
    let rest = delete_attempts run rounds (i + 1) (run i) in if is_some (run i) then rest else none

abbrev pub max_retry : ℕ
max_retry = 5

-- The file of a kind configuration: its text, and the name that it sets.
pub record KindConfigFile : Type 0 where
  pub content : Result Text
  pub decode_name : Text → Result Text

-- `GetKindClusterName` (internal/util/k8s.go)
unfoldable pub get_kind_cluster_name : KindConfigFile → Result Text
get_kind_cluster_name f = do
  data' ← f.content
  name ← f.decode_name data'
  ok (if is_empty name then codes "kind" else name)

-- `cleanKindCluster`, with the runs of the kind command by their arguments.
unfoldable pub clean_kind_cluster : KindConfigFile → (List Text → ℕ → Option Text) → Option Text
clean_kind_cluster f run = elim (get_kind_cluster_name f) [
  | err x ↦ some x
  | ok name ↦
      delete_attempts (run (codes "delete" ∷ codes "cluster" ∷ codes "--name" ∷ name ∷ []))
        max_retry 0 none
]

-- `KindCleanUp`: the cluster is deleted, and then the file of its configuration, whose error is
-- logged only. The first part says whether the file is removed.
unfoldable pub kind_clean_up : KindConfigFile → (List Text → ℕ → Option Text) → Bool × Option Text
kind_clean_up f run = elim (clean_kind_cluster f run) [
  | some x ↦ (false, some x)
  | none ↦ (true, none)
]

-- `ComposeCleanUp`, with the path of the file and the error of `Down`.
unfoldable pub compose_clean_up : Text → Option Text → Option Text
compose_clean_up path down =
    if is_empty path then some (codes "no compose config file was provided") else down

-- `DoCleanupAccordingE2E`, by the environment and the path of the kubeconfig.
unfoldable pub do_cleanup_according_e2e :
    Text → Text → Text → KindConfigFile → (List Text → ℕ → Option Text) → Option Text → Option Text
unfolding kind_clean_up compose_clean_up
do_cleanup_according_e2e env kubeconfig path f run down =
    if text_eq env (codes "kind")
    then (if is_empty kubeconfig then (kind_clean_up f run).1 else none)
    else if text_eq env (codes "compose")
    then compose_clean_up path down
    else some (
        codes "no such env for cleanup: ["
        ++ (env ++ codes "]. should use kind or compose instead"))
