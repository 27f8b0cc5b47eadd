-- ===== src/Output/Counts.antt =====
-- What the two summaries of pkg/output count, by the fields of the results.
use skywalking_infra_e2e.Base.{
  ℕ, ◌+◌, ◌≡◌, refl, ◌∙◌, ap, sym, Bool, true, false, Option, none, some, List, [], ◌∷◌, ◌++◌,
  append_assoc, append-nil, Text, length, arith, length-append,
}
use skywalking_infra_e2e.Output.{
  CaseResult, Printer, Summary, no_cases, count_case, count_cases, print_result, YamlCaseResult,
  no_names, collect_case, collect_cases, print_result_in_yaml,
}

-- What the loop of `PrintResult` adds up to, from the fields of the results.
pub data Verdict : Type 0 where
  passed failed skipped : Verdict

abbrev pub verdict_of : Option Text → Bool → Verdict
verdict_of e true = skipped
verdict_of none false = passed
verdict_of (some e) false = failed

abbrev pub verdict : CaseResult → Verdict
verdict cr = verdict_of cr.error cr.skip

abbrev tally : Verdict → Verdict → ℕ
tally passed passed = 1
tally failed failed = 1
tally skipped skipped = 1
tally _ _ = 0

-- How many results have a verdict.
abbrev pub count : Verdict → List CaseResult → ℕ
count v [] = 0
count v (cr ∷ rest) = tally v (verdict cr) + count v rest

abbrev pick : Verdict → Verdict → Text → List Text
pick passed passed n = n ∷ []
pick failed failed n = n ∷ []
pick skipped skipped n = n ∷ []
pick _ _ n = []

-- The names of the results with a verdict, in order.
abbrev pub names : Verdict → List CaseResult → List Text
names v [] = []
names v (cr ∷ rest) = pick v (verdict cr) cr.name ++ names v rest

count_cases-count :
    (p : Printer) (res : List CaseResult) (s : Summary)
    → ((count_cases p res s).pass_num ≡ s.pass_num + count passed res)
      × ((count_cases p res s).fail_num ≡ s.fail_num + count failed res)
      × ((count_cases p res s).skip_num ≡ s.skip_num + count skipped res)
unfolding count_cases
count_cases-count p [] s = omega arith
count_cases-count p (cr ∷ rest) s = ground (arith, count_cases-count p rest (count_case p cr s))

-- The three numbers that the printer returns are the numbers of results that passed, failed and
-- were skipped, whatever the printer's options are.
pub print_result_counts :
    (p : Printer) (res : List CaseResult)
    → ((print_result p res).pass_num ≡ count passed res)
      × ((print_result p res).fail_num ≡ count failed res)
      × ((print_result p res).skip_num ≡ count skipped res)
unfolding print_result
print_result_counts p res = ground (arith, count_cases-count p res no_cases)

collect_case-names :
    (cr : CaseResult) (y : YamlCaseResult)
    → ((collect_case cr y).passed ≡ y.passed ++ pick passed (verdict cr) cr.name)
      × ((collect_case cr y).failed ≡ y.failed ++ pick failed (verdict cr) cr.name)
      × ((collect_case cr y).skipped ≡ y.skipped ++ pick skipped (verdict cr) cr.name)
unfolding collect_case
collect_case-names cr y =
    ground (arith, append-nil y.passed, append-nil y.failed, append-nil y.skipped)

collect_cases-names :
    (res : List CaseResult) (y : YamlCaseResult)
    → ((collect_cases res y).passed ≡ y.passed ++ names passed res)
      × ((collect_cases res y).failed ≡ y.failed ++ names failed res)
      × ((collect_cases res y).skipped ≡ y.skipped ++ names skipped res)
unfolding collect_cases
collect_cases-names [] y = simp append-nil (refl, refl, refl)
collect_cases-names (cr ∷ rest) y =
    let ih = collect_cases-names rest (collect_case cr y) in
    let (p, f, s) = collect_case-names cr y in
    (
      ih.0
          ∙ ap (λ l. l ++ names passed rest) p
          ∙ append_assoc y.passed (pick passed (verdict cr) cr.name) (names passed rest),
      ih.1
          ∙ ap (λ l. l ++ names failed rest) f
          ∙ append_assoc y.failed (pick failed (verdict cr) cr.name) (names failed rest),
      ih.2
          ∙ ap (λ l. l ++ names skipped rest) s
          ∙ append_assoc y.skipped (pick skipped (verdict cr) cr.name) (names skipped rest),
    )

length-pick :
    (v : Verdict) (cr : CaseResult) → length (pick v (verdict cr) cr.name) ≡ tally v (verdict cr)
length-pick passed cr = ground arith
length-pick _ cr = ground arith

length-names : (v : Verdict) (res : List CaseResult) → length (names v res) ≡ count v res
length-names v [] = refl
length-names v (cr ∷ rest) = omega (
  arith,
  length-append (pick v (verdict cr) cr.name) (names v rest),
  length-names v rest,
  length-pick v cr,
)

-- The YAML summary lists the names of the results that passed, failed and were skipped, each in
-- the order of the cases, and its three counts are the three numbers of the printer.
pub print_result_in_yaml-names :
    (p : Printer) (res : List CaseResult)
    → ((print_result_in_yaml res).passed ≡ names passed res)
      × ((print_result_in_yaml res).failed ≡ names failed res)
      × ((print_result_in_yaml res).skipped ≡ names skipped res)
      × ((print_result_in_yaml res).passed_count ≡ (print_result p res).pass_num)
      × ((print_result_in_yaml res).failed_count ≡ (print_result p res).fail_num)
      × ((print_result_in_yaml res).skipped_count ≡ (print_result p res).skip_num)
unfolding print_result_in_yaml
print_result_in_yaml-names p res =
    let (a, b, c) = collect_cases-names res no_names in
    let (i, j, k) = print_result_counts p res in
    (
      a,
      b,
      c,
      ap length a ∙ length-names passed res ∙ sym i,
      ap length b ∙ length-names failed res ∙ sym j,
      ap length c ∙ length-names skipped res ∙ sym k,
    )

-- Every result is counted once.
pub count_total :
    (res : List CaseResult) → count passed res + count failed res + count skipped res ≡ length res
count_total [] = refl
count_total (cr ∷ rest) = ground (arith, count_total rest)
