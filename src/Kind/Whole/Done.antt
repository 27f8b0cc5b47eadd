-- ===== src/Kind/Whole/Done.antt =====
-- What a setup with kind has done where it returns no error.
use skywalking_infra_e2e.Base.{
  ℕ, ◌≡◌, refl, sym, ap, ◌∙◌, ◌⊎◌, inl, inr, Bool, true, false, ◌||◌, Option, none, some, List, [],
  ◌∷◌, ◌++◌, map, arith, length, Text, Result, ok, err, Result-cases, ℤ,
}
use skywalking_infra_e2e.Base.{and_then}
use skywalking_infra_e2e.Config.{Step, Setup, KindExposePort}
use skywalking_infra_e2e.Steps.Parts.{step_world}
use skywalking_infra_e2e.Steps.{run_steps_and_wait}
use skywalking_infra_e2e.Kind.{check_kube_config, pull_images, list_local_images}
use skywalking_infra_e2e.Kind.Ports.{Available, pull_images_iff}
use skywalking_infra_e2e.Kind.Cluster.{ClusterInfo, connect_to_k8s_cluster}
use skywalking_infra_e2e.Kind.Logs.{Pod, get_all_pods}
use skywalking_infra_e2e.Kind.Logs
use skywalking_infra_e2e.Kind.Forward.{ForwardContext, ForwardWorld, expose_kind_service}
use skywalking_infra_e2e.Kind.Forward.Service.{expose_kind_service_starts}
use skywalking_infra_e2e.Kind.Setup.{
  KindEvent, KindWorld, connect, listen, run_steps, expose_logs, expose_ports, pull, connect_path,
  import_images, env_file, kind_cluster,
}
use skywalking_infra_e2e.Kind.Order.{IsUndisturbed, kind_setup-events}
use skywalking_infra_e2e.Kind.Whole.{
  KindParts, error_of, create_step, run_kind_steps, kind_answer, kind_world, exposes,
  kind_setup_parts,
}
use skywalking_infra_e2e.Kind.Whole.Steps.{StepsMet, run_steps_and_wait-StepsMet}

exposes-append :
    (before rest : List KindEvent) → exposes (before ++ rest) ≡ (exposes before || exposes rest)
unfolding exposes
exposes-append [] rest = refl
exposes-append (a ∷ before) rest = ground (arith, exposes-append before rest)

exposes_behind :
    (a b c rest : List KindEvent) → exposes rest ≡ true → exposes (a ++ (b ++ (c ++ rest))) ≡ true
exposes_behind a b c rest h = ground (
  arith,
  exposes-append a (b ++ (c ++ rest)),
  exposes-append b (c ++ rest),
  exposes-append c rest,
)

ends_exposing :
    (path : Text)
    → exposes (connect path ∷ listen ∷ run_steps ∷ expose_logs ∷ expose_ports ∷ []) ≡ true
unfolding exposes
ends_exposing path = refl

no_error {ℓ} : {A : Type ℓ} (r : Result A) → error_of r ≡ none → (a : A) × (r ≡ ok a)
no_error (ok a) h = (a, refl)
no_error (err x) h = absurd (ground arith)

import_pulls :
    (w : KindWorld) (images : List Text)
    → (import_images w images).1 ≡ none
    → (images ≡ []) ⊎ (w.answer (pull (map w.expand_env images)) ≡ none)
unfolding import_images and_then
import_pulls w [] h = inl refl
import_pulls w (i ∷ is) h = inr (ground arith)

all_pulled :
    (client_error : Option Text) (images : List Text) (local_images : Result (Text → Bool))
    (there : Text → Bool)
    → pull_images client_error local_images there images ≡ none
    → (local : Text → Bool) × (local_images ≡ ok local) × Available local there images
unfolding pull_images
all_pulled none images (ok local) there h = (local, refl, (pull_images_iff local there images).0 h)
all_pulled none images (err x) there h = absurd (ground arith)
all_pulled (some y) images r there h = absurd (ground arith)

-- The context of a number of forwarders that run.
abbrev pub forwarding : ℕ → ForwardContext
forwarding n = record { stopped = false; resource_count = n; running = n; finished = 0 }

-- What the setup leaves: a cluster that could be connected to, images that are local or pulled,
-- steps that were done, logs that are followed, and one forwarder for each of the exports.
pub record KindDone (p : KindParts) (s : Setup) (bound : Option ForwardContext) (steps : List Step)
    : Type 0 where
  pub connected :
      (c : ClusterInfo p.client) × (connect_to_k8s_cluster p.client (connect_path p.outside) ≡ ok c)
  pub images :
      (s.kind.import_images ≡ [])
      ⊎ ((local : Text → Bool) × (list_local_images p.image_summary ≡ ok local)
          × Available local p.pull (map p.outside.expand_env s.kind.import_images))
  pub steps_met : StepsMet p 0 steps
  pub logs :
      (pods : List Pod) × (get_all_pods p.infos ≡ ok pods)
      × ((Logs.expose_logs p.pod_logs p.log_disk p.follower (ok pods)).1 ≡ none)
  pub forwards : (kind_setup_parts p s bound).0 ≡ some (forwarding (length s.kind.expose_ports))

pub forwarded :
    (f : ForwardWorld) (client_error : Option Text) (exports : List KindExposePort) (timeout : ℤ)
    (bound : Option ForwardContext)
    → (expose_kind_service f client_error exports timeout bound).1.1 ≡ none
    → (expose_kind_service f client_error exports timeout bound).0
      ≡ some (forwarding (length exports))
unfolding expose_kind_service
forwarded f none exports timeout bound h = expose_kind_service_starts f exports timeout bound h
forwarded f (some x) exports timeout bound h = absurd (ground arith)

module _ (p : KindParts) (s : Setup) (bound : Option ForwardContext) where
  pods_found :
      kind_answer p s bound expose_logs ≡ none
      → (pods : List Pod) × (get_all_pods p.infos ≡ ok pods)
        × ((Logs.expose_logs p.pod_logs p.log_disk p.follower (ok pods)).1 ≡ none)
  unfolding kind_answer Logs.expose_logs
  pods_found h = elim (Result-cases (get_all_pods p.infos)) [
    | inl (pods, e) ↦ (pods, e, ground arith)
    | inr (x, e) ↦ absurd (ground arith)
  ]

  given_steps :
      {steps : List Step}
      → s.steps ≡ some steps
      → run_kind_steps p s
        ≡ run_steps_and_wait true (step_world true p.steps (create_step p)) 0 steps s.final_timeout
  unfolding run_kind_steps
  given_steps h = rw h refl

  -- A setup with steps that returns no error is done, where one of the two files is given and the
  -- listener writes nothing to the error that it shares with the setup.
  pub kind_setup_parts-KindDone :
      {steps : List Step}
      → s.steps ≡ some steps
      → check_kube_config p.outside.kind_config_path p.outside.kube_config_path ≡ none
      → IsUndisturbed p.outside
      → (kind_setup_parts p s bound).1 ≡ none
      → KindDone p s bound steps
  unfolding kind_setup_parts kind_answer
  kind_setup_parts-KindDone {steps} given one quiet h =
      let w = kind_world p s bound in
      let (a, b, c, d, e, f, events) = kind_setup-events w s given one quiet h in
      let done =
        ap exposes events
        ∙ exposes_behind (env_file w s.init_system_environment).0 (kind_cluster w s.kind.no_wait).0
            (import_images w s.kind.import_images).0 _ (ends_exposing (connect_path w)) in
      record {
        connected = no_error _ c;
        images = elim (import_pulls w s.kind.import_images b) [
          | inl none_given ↦ inl none_given
          | inr pulled ↦
              inr (all_pulled p.docker_error _ (list_local_images p.image_summary) p.pull pulled)
        ];
        steps_met =
            run_steps_and_wait-StepsMet p 0 steps s.final_timeout (sym (given_steps given) ∙ d);
        logs = pods_found e;
        forwards =
            rw done
              (forwarded p.forward p.client_error s.kind.expose_ports s.final_timeout bound f);
      }
