-- ===== src/Steps/WaitSet/Verdicts.antt =====
-- What the select on a `WaitSet` tells of the waits.
use mathlib.Core.Path.{subst}
use skywalking_infra_e2e.Base.{
  ℕ, zero, suc, ◌-◌, ◌≤◌, ◌≡◌, refl, inl, inr, true, false, none, some, arith, Option-cases, Text,
}
use skywalking_infra_e2e.Steps.{finished, errored}
use skywalking_infra_e2e.Steps.WaitSet.{
  WaitSet, new_wait_set, Step, met, fails, leaves, closes, selects_finish, selects_error,
  selects_timeout, Reach, here, next, held, Inv,
}

module _ (Fails : Text → Type 0) where
  Step-Inv : {s t : WaitSet} → Inv Fails s → Step Fails s t → Inv Fails t
  Step-Inv {s} {t} i (met r) = record {
    ended = λ c. absurd (omega (arith, (i.ended c).0));
    told_closed = i.told_closed;
    in_channel = i.in_channel;
    in_verdict = i.in_verdict;
    kept = i.kept;
  }
  Step-Inv {s} {t} i (fails x f r e) = record {
    ended = λ c. absurd (omega (arith, (i.ended c).0));
    told_closed = i.told_closed;
    in_channel = λ y h. let same : x ≡ y = ground arith in subst Fails same f;
    in_verdict = i.in_verdict;
    kept = λ h. let k = i.kept h in ground arith;
  }
  Step-Inv {s} {t} i (leaves l) = record {
    ended = λ c. absurd (omega (arith, (i.ended c).1));
    told_closed = i.told_closed;
    in_channel = i.in_channel;
    in_verdict = i.in_verdict;
    kept = i.kept;
  }
  Step-Inv {s} {t} i (closes r l) = record {
    ended = λ c. (r, l);
    told_closed = λ h. refl;
    in_channel = i.in_channel;
    in_verdict = i.in_verdict;
    kept = i.kept;
  }
  Step-Inv {s} {t} i (selects_finish c v) = record {
    ended = i.ended;
    told_closed = λ h. c;
    in_channel = i.in_channel;
    in_verdict = λ y h. absurd (ground arith);
    kept = λ h. i.kept (rw v refl);
  }
  Step-Inv {s} {t} i (selects_error x e v) = record {
    ended = i.ended;
    told_closed = λ h. absurd (ground arith);
    in_channel = λ y h. absurd (ground arith);
    in_verdict = λ y h. let same : x ≡ y = ground arith in subst Fails same (i.in_channel x e);
    kept = λ h. absurd (ground arith);
  }
  Step-Inv {s} {t} i (selects_timeout v) = record {
    ended = i.ended;
    told_closed = λ h. absurd (ground arith);
    in_channel = i.in_channel;
    in_verdict = λ y h. absurd (ground arith);
    kept = λ h. i.kept (rw v refl);
  }

  Reach-Inv : {s t : WaitSet} → Inv Fails s → Reach Fails s t → Inv Fails t
  Reach-Inv i here = i
  Reach-Inv i (next r st) = Step-Inv (Reach-Inv i r) st

  new_wait_set-Inv : (n : ℕ) → Inv Fails (new_wait_set n)
  unfolding new_wait_set
  new_wait_set-Inv n = record {
    ended = λ c. absurd (ground arith);
    told_closed = λ h. absurd (ground arith);
    in_channel = λ y h. absurd (ground arith);
    in_verdict = λ y h. absurd (ground arith);
    kept = λ h. refl;
  }

  at_most_one : (s : WaitSet) → s.failed ≡ held s.err_chan → s.failed ≤ 1
  at_most_one s h = elim (Option-cases s.err_chan) [
    | inl e ↦ ground arith
    | inr (x, e) ↦ ground arith
  ]

  -- Of n concurrent waits, in every interleaving: where the select has taken the end of the waits,
  -- no wait runs, none has still to leave the wait group, and at most one has failed, whose error
  -- then lies in the channel still.
  pub finish_means_ended :
      (n : ℕ) {s : WaitSet}
      → Reach Fails (new_wait_set n) s
      → s.verdict ≡ some finished
      → (s.running ≡ 0) × (s.leaving ≡ 0) × (s.failed ≤ 1) × (s.failed ≡ held s.err_chan)
  finish_means_ended n {s} r v =
      let i = Reach-Inv (new_wait_set-Inv n) r in
      let (a, b) = i.ended (i.told_closed v) in
      let k = i.kept (rw v refl) in (a, b, at_most_one s k, k)

  -- An error that the select has taken is one with which a wait can fail.
  pub taken_error_fails :
      (n : ℕ) {s : WaitSet} {x : Text}
      → Reach Fails (new_wait_set n) s
      → s.verdict ≡ some (errored x)
      → Fails x
  taken_error_fails n {s} {x} r v = (Reach-Inv (new_wait_set-Inv n) r).in_verdict x v

  -- One error is in the channel, and r waits run.
  abbrev holding : Text → ℕ → WaitSet
  holding x r = record {
    running = r;
    leaving = 0;
    failed = 1;
    err_chan = some x;
    closed = false;
    verdict = none;
  }

  others_met :
      (x : Text) (r : ℕ) {s : WaitSet} → Reach Fails s (holding x r) → Reach Fails s (holding x 0)
  others_met x zero p = p
  others_met x (suc r) {s} p =
      let same : suc r - 1 ≡ r = omega arith in
      others_met x r (
        subst (λ k. Reach Fails s (holding x k)) same
          (next (next p (met (omega arith))) (leaves (omega arith))))

  -- If a wait can fail with some error, an interleaving of any positive number of concurrent waits
  -- exists in which one of them fails with it and sends its error, and the select takes the end of
  -- the waits all the same.
  pub select_misses_error :
      (n : ℕ) (x : Text)
      → Fails x
      → (s : WaitSet) × (Reach Fails (new_wait_set (suc n)) s
          × (s.verdict ≡ some finished)
          × (s.failed ≡ 1))
  unfolding new_wait_set
  select_misses_error n x f =
      let same : suc n - 1 ≡ n = omega arith in
      let first : Reach Fails (new_wait_set (suc n)) (holding x n) =
        subst (λ k. Reach Fails (new_wait_set (suc n)) (holding x k)) same
          (next (next here (fails x f (omega arith) refl)) (leaves (omega arith))) in
      (
        record (holding x 0) { closed = true; verdict = some finished },
        (
          next (next (others_met x n first) (closes refl refl)) (selects_finish refl refl),
          refl,
          refl,
        ),
      )
