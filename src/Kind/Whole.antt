-- ===== src/Kind/Whole.antt =====
-- The setup with kind with its parts (`KindSetup`, internal/components/setup/kind.go, and the calls
-- of `RunStepsAndWait`, internal/components/setup/common.go): the cluster, the images, the steps with
-- their manifests, commands and waits, the logs and the forwarders as they are modelled.
pub mod Steps
pub mod Done
use skywalking_infra_e2e.Base.{
  ℕ, Bool, true, false, ◌||◌, Option, none, some, List, [], ◌∷◌, if◌then◌else◌, Text, Result, ok,
  err, ℤ,
}
use skywalking_infra_e2e.Paths.{Settings}
use skywalking_infra_e2e.Config.{Wait, Setup}
use skywalking_infra_e2e.Logs.{LogFollower, LogDisk}
use skywalking_infra_e2e.Steps.{Select, run_steps_and_wait, create_manifest_and_wait}
use skywalking_infra_e2e.Steps.Commands.{options}
use skywalking_infra_e2e.Steps.Parts.{StepParts, commands_of, step_world}
use skywalking_infra_e2e.Kind.{pull_images, list_local_images}
use skywalking_infra_e2e.Base.{◌≡◌, ◌⊎◌, length, ◌++◌, codes}
use skywalking_infra_e2e.Steps.WaitSet.{WaitSet, new_wait_set, Reach}
use skywalking_infra_e2e.Kind.Cluster.{ClientWorld, connect_to_k8s_cluster}
use skywalking_infra_e2e.Kind.Manifests.{ManifestDisk, ManifestApi, create_by_manifest}
use skywalking_infra_e2e.Kind.Logs.{Object, PodLogs, get_all_pods, expose_logs}
use skywalking_infra_e2e.Kind.Forward.{ForwardContext, ForwardWorld, expose_kind_service}
use skywalking_infra_e2e.Kind.Setup.{KindEvent, KindWorld, kind_setup}

-- `concurrentlyWait`: the error that is sent.
unfoldable pub concurrently_wait : (Wait → Text) → Wait → Option Text → Option Text
concurrently_wait show_wait wait ran = elim ran [
  | none ↦ none
  | some x ↦ some (codes "wait strategy :" ++ (show_wait wait ++ (codes ", err: " ++ x)))
]

-- One of the waits sends the error.
abbrev pub WaitFails : (Wait → Text) → (Wait → Option Text) → List Wait → Text → Type 0
WaitFails show_wait run [] x = ⊥
WaitFails show_wait run (w ∷ ws) x =
    (concurrently_wait show_wait w (run w) ≡ some x) ⊎ WaitFails show_wait run ws x

-- A run of the goroutines of n waits, up to the select of `createManifestAndWait`.
pub record Chosen (Fails : Text → Type 0) (n : ℕ) : Type 0 where
  pub set : WaitSet
  pub select : Select
  pub reached : Reach Fails (new_wait_set n) set
  pub verdict : set.verdict ≡ some select

-- What the outside answers to the parts. `outside` has the paths, and the answers of kind and of the
-- system; `run_wait` is the error of a wait of the i-th step with manifests, and `choose` where its
-- select goes, among what the goroutines allow; `docker_error` is that of the client of docker;
-- `infos` is the search for the pods, and `follower`
-- the log follower at the i-th of them.
pub record KindParts : Type 1 where
  pub outside : KindWorld
  pub client : ClientWorld
  pub docker_error : Option Text
  pub image_summary : Result (List (List Text))
  pub pull : Text → Bool
  pub settings : Settings
  pub disk : ManifestDisk
  pub api : ManifestApi
  pub steps : StepParts
  pub run_wait : ℕ → Wait → Option Text
  pub show_wait : Wait → Text
  pub choose :
      (i : ℕ) (waits : List Wait) → Chosen (WaitFails show_wait (run_wait i) waits) (length waits)
  pub pod_logs : PodLogs
  pub log_disk : LogDisk
  pub follower : ℕ → LogFollower
  pub infos : Result (List Object)
  pub client_error : Option Text
  pub forward : ForwardWorld

abbrev pub error_of {ℓ} : {A : Type ℓ} → Result A → Option Text
error_of (ok a) = none
error_of (err x) = some x

module _ (p : KindParts) where
  -- The error of `getWaitOptions`.
  abbrev pub wait_error : ℕ → Wait → Option Text
  wait_error i wait = error_of (options (commands_of true p.steps i) wait)

  -- The call of `createManifestAndWait` for the i-th step.
  unfoldable pub create_step : ℕ → Text → List Wait → ℤ → Option Text
  create_step i path waits timeout =
      create_manifest_and_wait (create_by_manifest p.api p.settings p.disk path).1 (wait_error i)
        waits (p.steps.seconds timeout) (p.choose i waits).select

  -- `RunStepsAndWait` with a cluster.
  unfoldable pub run_kind_steps : Setup → Option Text
  run_kind_steps s = elim s.steps [
    | none ↦ none
    | some steps ↦
        run_steps_and_wait true (step_world true p.steps create_step) 0 steps s.final_timeout
  ]

  -- The error of each call of the setup.
  unfoldable pub kind_answer : Setup → Option ForwardContext → KindEvent → Option Text
  kind_answer s bound (KindEvent.connect path) = error_of (connect_to_k8s_cluster p.client path)
  kind_answer s bound (KindEvent.pull images) =
      pull_images p.docker_error (list_local_images p.image_summary) p.pull images
  kind_answer s bound KindEvent.run_steps = run_kind_steps s
  kind_answer s bound KindEvent.expose_logs =
      (expose_logs p.pod_logs p.log_disk p.follower (get_all_pods p.infos)).1
  kind_answer s bound KindEvent.expose_ports =
      (expose_kind_service p.forward p.client_error s.kind.expose_ports s.final_timeout bound).1.1
  kind_answer s bound e = p.outside.answer e

  abbrev pub kind_world : Setup → Option ForwardContext → KindWorld
  kind_world s bound = record (p.outside) { answer = kind_answer s bound }

is_expose : KindEvent → Bool
is_expose KindEvent.expose_ports = true
is_expose _ = false

-- Whether the setup has come to the ports.
unfoldable pub exposes : List KindEvent → Bool
unfolding is_expose
exposes [] = false
exposes (e ∷ es) = is_expose e || exposes es

-- `KindSetup`: the variable `portForwardContext` behind it, and its error.
unfoldable pub kind_setup_parts :
    KindParts → Setup → Option ForwardContext → Option ForwardContext × Option Text
kind_setup_parts p s bound =
    let (events, error) = kind_setup (kind_world p s bound) s in
    let (context, _) =
      expose_kind_service p.forward p.client_error s.kind.expose_ports s.final_timeout bound in
    (if exposes events then context else bound, error)
