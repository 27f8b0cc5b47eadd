-- ===== src/Kind/Forward/Notify.antt =====
-- The wait of `KindCleanNotify` for the goroutines that forward ports.
use skywalking_infra_e2e.Base.{
  ◌*◌, ℕ, suc, refl, ◌∙◌, ◌≤◌, ◌+◌, ◌≡◌, ◌⊎◌, inl, inr, arith, ltb, Bool-cases,
}
use skywalking_infra_e2e.Kind.Forward.{Notifying, Step, ends, receives, Reach, here, next}

-- Every resource is forwarded, has sent its message, or was received.
abbrev pub Inv : Notifying → Type 0
Inv n = n.context.running + n.context.finished + n.received ≡ n.context.resource_count

Step-Inv : {n m : Notifying} → Step n m → Inv n → Inv m
Step-Inv (ends n h k) i = omega arith
Step-Inv (receives n h k) i = omega arith

Reach-Inv : {n m : Notifying} → Reach n m → Inv n → Inv m
Reach-Inv here i = i
Reach-Inv (next r s) i = Step-Inv s (Reach-Inv r i)

-- What is still to do, and the number of steps.
weight : Notifying → ℕ
weight n = 2 * n.context.running + n.context.finished

abbrev pub steps : {n m : Notifying} → Reach n m → ℕ
steps here = 0
steps (next r s) = suc (steps r)

Step-weight : {n m : Notifying} → Step n m → suc (weight m) ≡ weight n
unfolding weight
Step-weight (ends n h k) = omega arith
Step-weight (receives n h k) = omega arith

Reach-weight : {n m : Notifying} (r : Reach n m) → steps r + weight m ≡ weight n
Reach-weight here = omega arith
Reach-weight (next r s) = let a = Reach-weight r in let b = Step-weight s in omega arith

Step-count : {n m : Notifying} → Step n m → m.context.resource_count ≡ n.context.resource_count
Step-count (ends n h k) = refl
Step-count (receives n h k) = refl

Reach-count : {n m : Notifying} → Reach n m → m.context.resource_count ≡ n.context.resource_count
Reach-count here = refl
Reach-count (next r s) = Step-count s ∙ Reach-count r

few_steps :
    {n m : Notifying} (r : Reach n m)
    → n.context.running + n.context.finished ≡ n.context.resource_count
    → steps r ≤ 2 * n.context.resource_count
unfolding weight
few_steps r h = let a = Reach-weight r in omega arith

-- If at the start each resource has a forwarder that runs or has sent its message, the wait is short,
-- and is never stuck.
pub notify_ends :
    {n m : Notifying} (r : Reach n m)
    → n.context.running + n.context.finished ≡ n.context.resource_count
    → n.received ≡ 0
    → (steps r ≤ 2 * n.context.resource_count)
      × ((m.received ≡ n.context.resource_count) ⊎ ((k : Notifying) × Step m k))
notify_ends {n} {m} r all' none' =
    let i = Reach-Inv r (omega arith) in
    let same = Reach-count r in
    (
      few_steps r all',
      elim (Bool-cases (ltb 0 m.context.finished)) [
        | inl some' ↦ inr (_, receives m (ground arith) (ground arith))
        | inr none'' ↦ elim (Bool-cases (ltb 0 m.context.running)) [
          | inl busy ↦ inr (_, ends m (ground arith) (ground arith))
          | inr idle ↦ inl (ground arith)
        ]
      ],
    )
