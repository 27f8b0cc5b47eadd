-- ===== src/Teardown/Retries.antt =====
-- When a cluster is deleted.
use skywalking_infra_e2e.Base.{
  ℕ, zero, suc, ◌+◌, ◌≤◌, ◌<◌, ◌≡◌, refl, ◌↔◌, ◌⊎◌, inl, inr, true, Option, none, List, [], ◌∷◌,
  arith, ◌==◌, Bool-cases, Option-cases, is_some, Text, codes, ok,
}
use skywalking_infra_e2e.Teardown.{
  delete_attempts, KindConfigFile, get_kind_cluster_name, clean_kind_cluster,
}

-- One of the runs i, i + 1, ... succeeds.
abbrev pub Succeeds : (ℕ → Option Text) → ℕ → ℕ → Type 0
Succeeds run i rounds = (k : ℕ) × (i ≤ k) × (k < i + rounds) × (run k ≡ none)

delete_attempts_sound :
    (run : ℕ → Option Text) (rounds i : ℕ) (error : Option Text)
    → (0 < rounds) ⊎ (is_some error ≡ true)
    → delete_attempts run rounds i error ≡ none
    → Succeeds run i rounds
unfolding delete_attempts
delete_attempts_sound run zero i error (inl e) h = absurd (omega arith)
delete_attempts_sound run zero i error (inr e) h = absurd (ground arith)
delete_attempts_sound run (suc rounds) i error e h = elim (Option-cases (run i)) [
  | inl good ↦ (i, omega arith, omega arith, good)
  | inr (x, bad) ↦
      let (k, low, high, good) =
        delete_attempts_sound run rounds (i + 1) (run i) (inr (rw bad refl)) (ground arith) in
      (k, omega arith, omega arith, good)
]

delete_attempts_complete :
    (run : ℕ → Option Text) (rounds i : ℕ) (error : Option Text)
    → Succeeds run i rounds
    → delete_attempts run rounds i error ≡ none
unfolding delete_attempts
delete_attempts_complete run zero i error (k, low, high, good) = absurd (omega arith)
delete_attempts_complete run (suc rounds) i error (k, low, high, good) =
    elim (Bool-cases (i == k)) [
      | inl e ↦ let here : i ≡ k = ground arith in rw here (rw good refl)
      | inr e ↦
          let later =
            delete_attempts_complete run rounds (i + 1) (run i)
              (k, ground arith, omega arith, good) in
          ground arith
    ]

-- The arguments of the command that deletes a cluster.
abbrev pub delete_cluster : Text → List Text
delete_cluster name = codes "delete" ∷ codes "cluster" ∷ codes "--name" ∷ name ∷ []

-- The cleanup of a kind cluster whose name is known returns no error exactly where one of the
-- first five runs of the command that deletes the cluster of that name succeeds.
pub clean_kind_cluster_iff :
    (f : KindConfigFile) (run : List Text → ℕ → Option Text) {name : Text}
    → get_kind_cluster_name f ≡ ok name
    → (clean_kind_cluster f run ≡ none) ↔ Succeeds (run (delete_cluster name)) 0 5
unfolding clean_kind_cluster
clean_kind_cluster_iff f run {name} h = (
  λ e.
      delete_attempts_sound (run (delete_cluster name)) 5 0 none (inl (omega arith)) (ground arith),
  λ k. let good = delete_attempts_complete (run (delete_cluster name)) 5 0 none k in ground arith,
)
