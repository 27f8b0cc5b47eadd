-- ===== src/Base/Calls.antt =====
-- Calls in a row: what was done, and the error of the last one.
use mathlib.Core.Path.{◌≡◌}
use mathlib.Core.Option.{Option, none, some}
use mathlib.Core.List.{List, ◌++◌}
use native.Mathlib.Omega.{arith}
use skywalking_infra_e2e.Base.Strings.{Text}

module _ {ℓ} {Event : Type ℓ} where
  -- A call behind others: it is made if they returned no error.
  unfoldable pub and_then :
      List Event × Option Text → List Event × Option Text → List Event × Option Text
  and_then (a, none) (b, x) = (a ++ b, x)
  and_then (a, some x) rest = (a, some x)

  -- Calls without an error were all made.
  pub and_then-none :
      (a b : List Event × Option Text)
      → (and_then a b).1 ≡ none
      → (a.1 ≡ none) × (b.1 ≡ none) × ((and_then a b).0 ≡ a.0 ++ b.0)
  unfolding and_then
  and_then-none a b h = ground arith
