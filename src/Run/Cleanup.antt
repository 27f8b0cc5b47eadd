-- ===== src/Run/Cleanup.antt =====
-- When the environment is cleaned up, and what the command returns.
use skywalking_infra_e2e.Base.{
  ℕ, ◌+◌, ◌≡◌, refl, Bool, not, ◌&&◌, ◌||◌, Option, none, some, List, [], ◌∷◌, arith, if◌then◌else◌,
  is_some, Text, text_eq,
}
use skywalking_infra_e2e.Run.{
  ActionOutcome, create_failed, no_action, never_sends, sends, Stages, Event, clean_up,
  run_according_e2e, clean_up_always, clean_up_on_success, clean_up_on_failure,
}

-- The error of the stages behind the setup: the trigger's, else that of the verification.
-- `none` is a trigger that never answers.
abbrev pub later_error : ActionOutcome → Option Text → Option (Option Text)
later_error (create_failed x) v = some (some x)
later_error no_action v = some v
later_error never_sends v = none
later_error (sends (some x)) v = some (some x)
later_error (sends none) v = some v

-- The first error of the command's parts.
abbrev pub first_error :
    Option Text → Option Text → ActionOutcome → Option Text → Option (Option Text)
first_error (some x) s a v = some (some x)
first_error none (some x) a v = some (some x)
first_error none none a v = later_error a v

-- The run command returns the first error of its parts, in their order, and no error if there is
-- none; it waits for ever where the trigger never answers.
pub run_according_e2e_returns :
    (s : Stages)
    → (run_according_e2e s).returned
      ≡ first_error s.config_error s.setup_error s.action s.verify_error
unfolding run_according_e2e
run_according_e2e_returns s = ground arith

is_clean_up : Event → ℕ
is_clean_up clean_up = 1
is_clean_up _ = 0

-- How often the environment is cleaned up.
abbrev pub cleanups : List Event → ℕ
unfolding is_clean_up
cleanups [] = 0
cleanups (e ∷ es) = is_clean_up e + cleanups es

-- Whether the strategy asks for it: always, or by how the stages behind the setup ended. A setup
-- that failed is cleaned up with `always` only.
abbrev pub asked : Text → Option Text → Option Text → Bool
asked on (some x) error = text_eq on clean_up_always
asked on none error =
    text_eq on clean_up_always
    || (text_eq on clean_up_on_success && not (is_some error))
    || (text_eq on clean_up_on_failure && is_some error)

-- A run that returns, with a configuration that was loaded, cleans the environment up once if the
-- strategy asks for it, and never otherwise; a setup that failed is cleaned up with `always` only.
pub cleanups-run_according_e2e :
    (s : Stages) {error : Option Text}
    → s.config_error ≡ none
    → (run_according_e2e s).returned ≡ some error
    → cleanups (run_according_e2e s).events
      ≡ (if asked s.cleanup_on s.setup_error error then 1 else 0)
unfolding run_according_e2e is_clean_up
cleanups-run_according_e2e s loaded h = ground arith

-- A run that waits for ever has cleaned nothing up.
pub cleanups_waiting :
    (s : Stages) → (run_according_e2e s).returned ≡ none → cleanups (run_according_e2e s).events ≡ 0
unfolding run_according_e2e is_clean_up
cleanups_waiting s h = ground arith

-- Nor has a run whose configuration was not loaded.
pub cleanups_unloaded :
    (s : Stages) {x : Text} → s.config_error ≡ some x → cleanups (run_according_e2e s).events ≡ 0
unfolding run_according_e2e is_clean_up
cleanups_unloaded s h = ground arith

pub first_error_of_setup :
    {c s : Option Text} {x : Text} (a : ActionOutcome) (v : Option Text)
    → c ≡ none
    → s ≡ some x
    → first_error c s a v ≡ some (some x)
first_error_of_setup a v h k = rw (h, k) refl

pub first_error_later :
    {c s : Option Text} (a : ActionOutcome) (v : Option Text)
    → c ≡ none
    → s ≡ none
    → first_error c s a v ≡ later_error a v
first_error_later a v h k = rw (h, k) refl
