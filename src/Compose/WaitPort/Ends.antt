-- ===== src/Compose/WaitPort/Ends.antt =====
-- The ends of the wait for a port.
use mathlib.Core.Path.{subst}
use skywalking_infra_e2e.Base.{
  ℕ, zero, suc, ◌+◌, ◌<◌, ◌≡◌, refl, ap, ◌∙◌, ◌⊎◌, inl, inr, Bool, true, false, Option, none, some,
  arith, ◌==◌, ==_iff, Bool-cases, Option-cases, is_some, Text, codes, itoa_nat, Result, ok, err,
  Result-cases,
}
use skywalking_infra_e2e.Compose.Provider.{NatPort}
use skywalking_infra_e2e.Compose.WaitPort.{
  Dial, connected, refused, dial_failed, Probe, find_mapped_port, external_check, internal_check,
  then_check, dialled, checks, wait_port, build_internal_check_command, address_of, join_host_port,
  Loop,
}

abbrev is_refused : Dial → Bool
is_refused refused = true
is_refused _ = false

-- The context is done from the n-th attempt on: the select takes it, no dial is refused any more,
-- and the second loop finds its error.
pub record IsDoneAt (p : Probe) (n : ℕ) : Type 0 where
  pub select_ends : is_some (p.done n) ≡ true
  pub dial_ends : (proto address : Text) → is_refused (p.dial proto address n) ≡ false
  pub check_ends : is_some (p.ctx_err n) ≡ true

module _ (p : Probe) where
  find_ends :
      (fuel i k : ℕ)
      → is_some (p.done (i + k)) ≡ true
      → k < fuel
      → is_some (find_mapped_port p fuel i) ≡ true
  unfolding find_mapped_port
  find_ends zero i k h l = absurd (omega (arith, l))
  find_ends (suc fuel) i zero h l =
      let same : i + 0 ≡ i = omega arith in
      let now : is_some (p.done i) ≡ true = rw same at h in ground arith
  find_ends (suc fuel) i (suc k) h l =
      let same : i + suc k ≡ suc i + k = omega arith in
      let later : is_some (p.done (suc i + k)) ≡ true = rw same at h in
      let rest = find_ends fuel (suc i) k later (omega arith) in ground arith

  external_ends :
      (fuel i k : ℕ) (proto address : Text)
      → is_refused (p.dial proto address (i + k)) ≡ false
      → k < fuel
      → is_some (external_check p fuel proto address i) ≡ true
  unfolding external_check
  external_ends zero i k proto address h l = absurd (omega (arith, l))
  external_ends (suc fuel) i zero proto address h l =
      let same : i + 0 ≡ i = omega arith in
      let now : is_refused (p.dial proto address i) ≡ false = rw same at h in ground arith
  external_ends (suc fuel) i (suc k) proto address h l =
      let same : i + suc k ≡ suc i + k = omega arith in
      let later : is_refused (p.dial proto address (suc i + k)) ≡ false = rw same at h in
      let rest = external_ends fuel (suc i) k proto address later (omega arith) in ground arith

  internal_ends :
      (fuel i k : ℕ) (command : Text)
      → is_some (p.ctx_err (i + k)) ≡ true
      → k < fuel
      → is_some (internal_check p fuel command i) ≡ true
  unfolding internal_check
  internal_ends zero i k command h l = absurd (omega (arith, l))
  internal_ends (suc fuel) i zero command h l =
      let same : i + 0 ≡ i = omega arith in
      let now : is_some (p.ctx_err i) ≡ true = rw same at h in ground arith
  internal_ends (suc fuel) i (suc k) command h l =
      let same : i + suc k ≡ suc i + k = omega arith in
      let later : is_some (p.ctx_err (suc i + k)) ≡ true = rw same at h in
      let rest = internal_ends fuel (suc i) k command later (omega arith) in ground arith

  checks_end :
      (n fuel : ℕ) (ip : Text) (port waited : NatPort)
      → IsDoneAt p n
      → n < fuel
      → is_some (checks p fuel ip port waited) ≡ true
  unfolding checks then_check
  checks_end n fuel ip port waited d l =
      let start : n ≡ 0 + n = omega arith in
      let address = address_of p ip port in
      let a =
        external_ends fuel 0 n port.proto address
          (subst (λ k. is_refused (p.dial port.proto address k) ≡ false) start
            (d.dial_ends port.proto address))
          l in
      let b =
        internal_ends fuel 0 n (build_internal_check_command (p.int waited))
          (subst (λ k. is_some (p.ctx_err k) ≡ true) start d.check_ends) l in
      ground arith

  found_or_done :
      (n fuel : ℕ) → IsDoneAt p n → n < fuel → is_some (find_mapped_port p fuel 0) ≡ true
  found_or_done n fuel d l =
      let start : n ≡ 0 + n = omega arith in
      find_ends fuel 0 n (subst (λ k. is_some (p.done k) ≡ true) start d.select_ends) l

  -- If the context is done at the n-th attempt of each of the three loops, so that the select
  -- takes it, the dial is not refused and the check of the context finds it, then the wait for a
  -- port ends with fuel above n.
  pub wait_port_ends :
      (n fuel : ℕ) (port : NatPort)
      → IsDoneAt p n
      → n < fuel
      → is_some (wait_port p fuel port) ≡ true
  unfolding wait_port
  wait_port_ends n fuel port d l = elim (Result-cases p.host) [
    | inr (x, e) ↦ ground arith
    | inl (ip, e) ↦ elim (Option-cases (find_mapped_port p fuel 0)) [
      | inl e' ↦ absurd (ground (arith, found_or_done n fuel d l))
      | inr (mapped, e') ↦ ground (arith, checks_end n fuel ip (dialled p mapped) port d l)
    ]
  ]

  -- Some dial of the address was answered, and its connection was closed.
  abbrev pub IsDialled : Text → Text → Type 0
  IsDialled proto address = (i : ℕ) × (p.dial proto address i ≡ connected none)

  -- Some run of the command within the context gave the exit code 0.
  abbrev pub IsChecked : Text → Type 0
  IsChecked command = (i : ℕ) × ((p.ctx_err i ≡ none) × (p.exec command i ≡ ok 0))

  Dial-cases :
      (d : Dial)
      → ((x : Option Text) × (d ≡ connected x)) ⊎ (d ≡ refused) ⊎ ((x : Text) × (d ≡ dial_failed x))
  Dial-cases (connected x) = inl (x, refl)
  Dial-cases refused = inr (inl refl)
  Dial-cases (dial_failed x) = inr (inr (x, refl))

  external-IsDialled :
      (fuel i : ℕ) (proto address : Text)
      → external_check p fuel proto address i ≡ some none
      → IsDialled proto address
  unfolding external_check
  external-IsDialled zero i proto address h = absurd (ground arith)
  external-IsDialled (suc fuel) i proto address h = elim (Dial-cases (p.dial proto address i)) [
    | inl (x, e) ↦ (i, ground arith)
    | inr (inl e) ↦ external-IsDialled fuel (suc i) proto address (ground arith)
    | inr (inr (x, e)) ↦ absurd (ground arith)
  ]

  internal-IsChecked :
      (fuel i : ℕ) (command : Text)
      → internal_check p fuel command i ≡ some none
      → IsChecked command
  unfolding internal_check
  internal-IsChecked zero i command h = absurd (ground arith)
  internal-IsChecked (suc fuel) i command h = elim (Option-cases (p.ctx_err i)) [
    | inr (x, e) ↦ absurd (ground arith)
    | inl e ↦ elim (Result-cases (p.exec command i)) [
      | inr (x, e') ↦ absurd (ground arith)
      | inl (exit_code, e') ↦ elim (Bool-cases (exit_code == 0)) [
        | inl z ↦ let same : exit_code ≡ 0 = (==_iff exit_code 0).0 z in (i, (e, e' ∙ ap ok same))
        | inr z ↦ elim (Bool-cases (exit_code == 126)) [
          | inl z' ↦ absurd (ground arith)
          | inr z' ↦ internal-IsChecked fuel (suc i) command (ground arith)
        ]
      ]
    ]
  ]

  -- A port was mapped, or else the address has the port 0.
  abbrev pub IsTarget : Text → Result NatPort → Type 0
  IsTarget ip mapped =
      ((q : NatPort) × (mapped ≡ ok q))
      ⊎ (address_of p ip (dialled p mapped) ≡ join_host_port ip (codes "0"))

  target_of : (ip : Text) (mapped : Result NatPort) → IsTarget ip mapped
  unfolding dialled itoa_nat
  target_of ip (ok q) = inl (q, refl)
  target_of ip (err x) = inr (ap (λ n. join_host_port ip (itoa_nat n)) p.int_no_port)

  then_check-none :
      (a b : Loop (Option Text)) → then_check p a b ≡ some none → (a ≡ some none) × (b ≡ some none)
  unfolding then_check
  then_check-none a b h = ground arith

  -- Where the wait for a port ends without an error, the host was found, a dial of the mapped port
  -- was answered and its connection closed, and a run of the check within the container gave the
  -- exit code 0 before the context was done; where no port was mapped, the port 0 was dialled.
  pub wait_port-IsDialled :
      (fuel : ℕ) (port : NatPort)
      → wait_port p fuel port ≡ some none
      → (ip : Text) × (mapped : Result NatPort) × ((p.host ≡ ok ip)
          × (find_mapped_port p fuel 0 ≡ some mapped)
          × IsTarget ip mapped
          × IsDialled (dialled p mapped).proto (address_of p ip (dialled p mapped))
          × IsChecked (build_internal_check_command (p.int port)))
  unfolding wait_port checks
  wait_port-IsDialled fuel port h = elim (Result-cases p.host) [
    | inr (x, e) ↦ absurd (ground arith)
    | inl (ip, e) ↦ elim (Option-cases (find_mapped_port p fuel 0)) [
      | inl e' ↦ absurd (ground arith)
      | inr (mapped, e') ↦
          let target = dialled p mapped in
          let (a, b) =
            then_check-none (external_check p fuel target.proto (address_of p ip target) 0)
              (internal_check p fuel (build_internal_check_command (p.int port)) 0)
              (ground arith) in
          (
            ip,
            mapped,
            (
              e,
              e',
              target_of ip mapped,
              external-IsDialled fuel 0 _ _ a,
              internal-IsChecked fuel 0 _ b,
            ),
          )
    ]
  ]
