-- ===== src/Kind/Setup.antt =====
-- `KindSetup` and `createKindCluster`: the calls of the setup, in order, as events.
use skywalking_infra_e2e.Base.{
  and_then, Bool, not, Option, none, some, List, [], ◌∷◌, ◌++◌, map, if◌then◌else◌, Text, codes,
  is_empty, Result, ok, err,
}
use skywalking_infra_e2e.Config.{Setup}
use skywalking_infra_e2e.Kind.{check_kube_config}

pub data KindEvent : Type 0 where
  export_env_vars connect : Text → KindEvent
  set_env : Text → Text → KindEvent
  kind_run pull : List Text → KindEvent
  listen run_steps expose_logs expose_ports : KindEvent

-- What the calls return: an error, or nothing. `resolve` is ResolveAbs, `expand_env` is
-- os.ExpandEnv, and `timeout_text` prints the timeout. `written` is what the consumer of the listener
-- writes to the variable `err`, which it shares with the setup, between a call and its test.
pub record KindWorld : Type 0 where
  pub kind_config_path : Text
  pub kube_config_path : Text
  pub created_config_path : Text
  pub resolve : Text → Text
  pub expand_env : Text → Text
  pub timeout_text : Text
  pub cluster_name : Result Text
  pub answer : KindEvent → Option Text
  pub written : KindEvent → List (Option Text)

-- What was called, and the error.
abbrev pub Calls : Type 0
Calls = List KindEvent × Option Text

-- The error that is tested: what was written last.
unfoldable pub overwritten : List (Option Text) → Option Text → Option Text
overwritten [] error = error
overwritten (x ∷ xs) error = overwritten xs x

module _ (w : KindWorld) where
  -- A call whose error is returned.
  abbrev call : KindEvent → Calls
  call e = (e ∷ [], w.answer e)

  -- A call whose error is logged only.
  abbrev call_and_log : KindEvent → Calls
  call_and_log e = (e ∷ [], none)

  -- A call behind the start of the listener, whose error is tested.
  unfoldable pub call_beside : KindEvent → Calls
  call_beside e = (e ∷ [], overwritten (w.written e) (w.answer e))

  export_kubeconfig : Text → Calls
  export_kubeconfig path = elim (w.answer (set_env (codes "KUBECONFIG") path)) [
    | none ↦ (set_env (codes "KUBECONFIG") path ∷ [], none)
    | some x ↦ (
      set_env (codes "KUBECONFIG") path ∷ [],
      some (codes "could not export kubeconfig file path, " ++ x),
    )
  ]

  -- `createKindCluster`
  unfoldable pub create_kind_cluster : Bool → Calls
  unfolding export_kubeconfig and_then
  create_kind_cluster no_wait =
      let args =
        codes "create"
        ∷ codes "cluster"
        ∷ codes "--config"
        ∷ w.kind_config_path
        ∷ codes "--kubeconfig"
        ∷ w.created_config_path
        ∷ [] in
      and_then
        (call
          (kind_run (args ++ (if not no_wait then codes "--wait" ∷ w.timeout_text ∷ [] else []))))
        (export_kubeconfig w.created_config_path)

  -- The loop that loads the images.
  load_images : Text → List Text → Calls
  unfolding and_then
  load_images name [] = ([], none)
  load_images name (image ∷ images) =
      and_then
        (call (kind_run (codes "load" ∷ codes "docker-image" ∷ image ∷ codes "--name" ∷ name ∷ [])))
        (load_images name images)

  unfoldable pub import_images : List Text → Calls
  unfolding load_images and_then
  import_images [] = ([], none)
  import_images (i ∷ is) =
      let images = map w.expand_env (i ∷ is) in
      and_then (call (pull images))
        (elim w.cluster_name [ err x ↦ ([], some x) | ok name ↦ load_images name images ])

  -- The cluster: a new one, or that of the kubeconfig.
  unfoldable pub kind_cluster : Bool → Calls
  unfolding create_kind_cluster export_kubeconfig
  kind_cluster no_wait =
      if is_empty w.kube_config_path
      then create_kind_cluster no_wait
      else export_kubeconfig w.kube_config_path

  -- The path to connect with: creating a cluster sets it.
  abbrev pub connect_path : Text
  connect_path = if is_empty w.kube_config_path then w.created_config_path else w.kube_config_path

  unfoldable pub env_file : Text → Calls
  env_file f = if not (is_empty f) then call_and_log (export_env_vars (w.resolve f)) else ([], none)

  -- What follows the cluster.
  unfoldable pub after_images : Calls
  unfolding and_then
  after_images = and_then (call (connect connect_path)) (
      and_then (call_and_log listen) (
        and_then (call_beside run_steps)
          (and_then (call_beside expose_logs) (call_beside expose_ports))))

  -- `KindSetup`
  unfoldable pub kind_setup : Setup → Calls
  kind_setup s = elim (check_kube_config w.kind_config_path w.kube_config_path) [
    | some x ↦ ([], some x)
    | none ↦ elim s.steps [
      | none ↦ ([], none)
      | some steps ↦ and_then (env_file s.init_system_environment) (
          and_then (kind_cluster s.kind.no_wait)
            (and_then (import_images s.kind.import_images) after_images))
    ]
  ]
