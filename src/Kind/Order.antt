-- ===== src/Kind/Order.antt =====
-- The order of the setup with kind.
use skywalking_infra_e2e.Base.{
  and_then, and_then-none, ◌≡◌, sym, ap, ◌∙◌, none, some, List, [], ◌∷◌, ◌++◌, arith,
}
use skywalking_infra_e2e.Config.{Step, Setup}
use skywalking_infra_e2e.Kind.{check_kube_config}
use skywalking_infra_e2e.Kind.Setup.{
  call_beside, overwritten, KindEvent, connect, listen, run_steps, expose_logs, expose_ports,
  KindWorld, Calls, import_images, kind_cluster, connect_path, env_file, after_images, kind_setup,
}

module _ (w : KindWorld) where
  -- The consumer of the listener writes nothing to the error between a call and its test.
  abbrev pub IsUndisturbed : Type 0
  IsUndisturbed =
      (w.written run_steps ≡ []) × (w.written expose_logs ≡ []) × (w.written expose_ports ≡ [])

  beside : (e : KindEvent) → w.written e ≡ [] → call_beside w e ≡ (e ∷ [], w.answer e)
  unfolding call_beside overwritten
  beside e h = ground arith

  after_images-events :
      IsUndisturbed
      → (after_images w).1 ≡ none
      → (w.answer (connect (connect_path w)) ≡ none)
        × (w.answer run_steps ≡ none)
        × (w.answer expose_logs ≡ none)
        × (w.answer expose_ports ≡ none)
        × ((after_images w).0
            ≡ connect (connect_path w) ∷ listen ∷ run_steps ∷ expose_logs ∷ expose_ports ∷ [])
  unfolding after_images and_then
  after_images-events (a, b, c) h =
      let x = beside run_steps a in
      let y = beside expose_logs b in let z = beside expose_ports c in ground arith

  kind_setup_steps :
      (s : Setup) {steps : List Step}
      → s.steps ≡ some steps
      → check_kube_config w.kind_config_path w.kube_config_path ≡ none
      → kind_setup w s
        ≡ and_then (env_file w s.init_system_environment) (
            and_then
              (kind_cluster w s.kind.no_wait)
              (and_then (import_images w s.kind.import_images) (after_images w)))
  unfolding kind_setup
  kind_setup_steps s h k = ground arith

  -- Where the listener writes nothing to the error that it shares with the setup, between a call
  -- and its test, a setup with steps whose files were accepted and that returns no error has done
  -- everything, in order: the environment file, the cluster, the images, and then the connection,
  -- the listener, the steps, the logs and the ports; the cluster, the images, the connection, the
  -- steps, the logs and the ports returned no error.
  pub kind_setup-events :
      (s : Setup) {steps : List Step}
      → s.steps ≡ some steps
      → check_kube_config w.kind_config_path w.kube_config_path ≡ none
      → IsUndisturbed
      → (kind_setup w s).1 ≡ none
      → ((kind_cluster w s.kind.no_wait).1 ≡ none)
        × ((import_images w s.kind.import_images).1 ≡ none)
        × (w.answer (connect (connect_path w)) ≡ none)
        × (w.answer run_steps ≡ none)
        × (w.answer expose_logs ≡ none)
        × (w.answer expose_ports ≡ none)
        × ((kind_setup w s).0
            ≡ (env_file w s.init_system_environment).0
              ++ ((kind_cluster w s.kind.no_wait).0
                  ++ ((import_images w s.kind.import_images).0
                      ++ connect (connect_path w)
                        ∷ listen
                        ∷ run_steps
                        ∷ expose_logs
                        ∷ expose_ports
                        ∷ [])))
  kind_setup-events s given one quiet e =
      let same = kind_setup_steps s given one in
      let (a, r, x) =
        and_then-none (env_file w s.init_system_environment) _
          (ap (λ (c : Calls). c.1) (sym same) ∙ e) in
      let (b, q, y) = and_then-none (kind_cluster w s.kind.no_wait) _ r in
      let (c, o, z) = and_then-none (import_images w s.kind.import_images) (after_images w) q in
      let (i, j, k, l, last) = after_images-events quiet o in
      (
        b,
        c,
        i,
        j,
        k,
        l,
        ap (λ (t : Calls). t.0) same
            ∙ x
            ∙ ap (λ t. (env_file w s.init_system_environment).0 ++ t)
                (y
                  ∙ ap (λ t. (kind_cluster w s.kind.no_wait).0 ++ t)
                      (z ∙ ap (λ t. (import_images w s.kind.import_images).0 ++ t) last)),
      )
