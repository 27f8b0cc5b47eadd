-- ===== src/Config/Interval.antt =====
-- The timeout of the setup (`Finalize`, internal/config/e2eConfig.go).
use skywalking_infra_e2e.Base.{
  ◌≡◌, refl, true, false, ℤ, is_nonpos, Text, Result, ok, is_ok, ◌↔◌, arith,
}
use skywalking_infra_e2e.Config.{Any, nil, int, string, other, Setup, finalize}

module _ (parse_duration : Text → Result ℤ) where
  -- A setup that is finalized has a timeout above 0, whatever value the file gives, also where the
  -- multiplication of a number of seconds overflows.
  pub finalize-positive :
      (s : Setup) {t : Setup} → finalize parse_duration s ≡ ok t → is_nonpos t.final_timeout ≡ false
  unfolding finalize
  finalize-positive s h = ground arith

  -- A timeout that can be read: a number, or a string that is a duration.
  abbrev pub IsReadable : Any → Type 0
  IsReadable (int z) = Unit
  IsReadable (string s) = is_ok (parse_duration s) ≡ true
  IsReadable v = ⊥

  -- `Finalize` succeeds exactly where the timeout is a number or a duration; a file that has no
  -- timeout is an error.
  pub finalize_iff : (s : Setup) → (is_ok (finalize parse_duration s) ≡ true) ↔ IsReadable s.timeout
  unfolding finalize
  finalize_iff s = cases s.timeout refl
    where
      cases :
          (v : Any)
          → s.timeout ≡ v
          → (is_ok (finalize parse_duration s) ≡ true) ↔ IsReadable s.timeout
      cases nil e = ground arith
      cases (int z) e = ground arith
      cases (string t) e = ground arith
      cases (other t) e = ground arith
