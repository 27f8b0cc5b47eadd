-- ===== src/Kind/Forward/Service.antt =====
-- The goroutines that exposing services starts.
use skywalking_infra_e2e.Base.{
  ℕ, suc, ◌+◌, ◌≡◌, refl, ap, ◌∙◌, false, Option, none, some, List, [], ◌∷◌, arith, if◌then◌else◌,
  length, ℤ, is_nonpos,
}
use skywalking_infra_e2e.Config.{KindExposePort, default_wait_timeout}
use skywalking_infra_e2e.Kind.Forward.{
  ForwardContext, ForwardWorld, expose_per_kind_service, expose_services, expose_kind_service,
}

-- The context behind a number of forwarders that were started.
abbrev pub plus : ForwardContext → ℕ → ForwardContext
plus c n = record c { running = c.running + n }

module _ (w : ForwardWorld) where
  per_service :
      (p : KindExposePort) (timeout : ℤ) (c : ForwardContext)
      → (expose_per_kind_service w p timeout c).1.1 ≡ none
      → (expose_per_kind_service w p timeout c).0 ≡ plus c 1
  unfolding expose_per_kind_service
  per_service p timeout c h = ground arith

  services_cons :
      (p : KindExposePort) (ps : List KindExposePort) (timeout : ℤ) (c : ForwardContext)
      → (expose_services w (p ∷ ps) timeout c).1.1 ≡ none
      → let c' = (expose_per_kind_service w p timeout c).0 in
        ((expose_per_kind_service w p timeout c).1.1 ≡ none)
        × ((expose_services w ps timeout c').1.1 ≡ none)
        × ((expose_services w (p ∷ ps) timeout c).0 ≡ (expose_services w ps timeout c').0)
  unfolding expose_services
  services_cons p ps timeout c h = ground arith

  plus_twice : (c : ForwardContext) (n : ℕ) → plus (plus c 1) n ≡ plus c (suc n)
  plus_twice c n = let same : c.running + 1 + n ≡ c.running + suc n = omega arith in rw same refl

  plus_zero : (c : ForwardContext) → c ≡ plus c 0
  plus_zero c = let same : c.running + 0 ≡ c.running = omega arith in rw same refl

  expose_services_starts :
      (ps : List KindExposePort) (timeout : ℤ) (c : ForwardContext)
      → (expose_services w ps timeout c).1.1 ≡ none
      → (expose_services w ps timeout c).0 ≡ plus c (length ps)
  unfolding expose_services
  expose_services_starts [] timeout c h = plus_zero c
  expose_services_starts (p ∷ ps) timeout c h =
      let (a, b, same) = services_cons p ps timeout c h in
      let first = per_service p timeout c a in
      same
      ∙ expose_services_starts ps timeout (expose_per_kind_service w p timeout c).0 b
      ∙ ap (λ d. plus d (length ps)) first
      ∙ plus_twice c (length ps)

  -- The context is bound exactly where the loop gives no error.
  no_error :
      (exports : List KindExposePort) (timeout : ℤ) (bound : Option ForwardContext)
      → let wait_timeout = if is_nonpos timeout then default_wait_timeout else timeout in
        let start : ForwardContext = record {
          stopped = false;
          resource_count = length exports;
          running = 0;
          finished = 0;
        } in
        (expose_kind_service w none exports timeout bound).1.1 ≡ none
        → ((expose_services w exports wait_timeout start).1.1 ≡ none)
          × ((expose_kind_service w none exports timeout bound).0
              ≡ some ((expose_services w exports wait_timeout start).0))
  unfolding expose_kind_service
  no_error exports timeout bound h = ground arith

  -- Where exposing the services of kind returns no error, the context that is bound counts one
  -- running forwarder for each of the services, and its channel is open.
  pub expose_kind_service_starts :
      (exports : List KindExposePort) (timeout : ℤ) (bound : Option ForwardContext)
      → (expose_kind_service w none exports timeout bound).1.1 ≡ none
      → (expose_kind_service w none exports timeout bound).0
        ≡ some (record {
          stopped = false;
          resource_count = length exports;
          running = length exports;
          finished = 0;
        })
  expose_kind_service_starts exports timeout bound h =
      let (a, b) = no_error exports timeout bound h in
      let count : 0 + length exports ≡ length exports = omega arith in
      let start : ForwardContext = record {
        stopped = false;
        resource_count = length exports;
        running = 0;
        finished = 0;
      } in
      b
      ∙ ap some (
          expose_services_starts exports
            (if is_nonpos timeout then default_wait_timeout else timeout) start a)
      ∙ ap (λ n. some (record start { running = n })) count
