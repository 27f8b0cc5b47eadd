-- ===== src/Kind/Ports.antt =====
-- The port that is forwarded, and the images that are pulled.
use mathlib.Core.Path.{subst}
use skywalking_infra_e2e.Base.{
  >>=-eq-ok, digits_of, contains_byte-append, split-append, split_single, ℕ, zero, suc, ◌+◌, ◌/◌,
  ◌%◌, ◌≤◌, ◌^◌, ◌≡◌, ◌⊎◌, refl, sym, ap, ◌∙◌, ◌↔◌, inl, inr, Bool, true, false, not, ◌||◌, none,
  some, Option-cases, List, [], ◌∷◌, ◌++◌, arith, if◌then◌else◌, Bool-cases, length, is_nil, Text,
  is_empty, text_eq, text_eq_iff, ok, split, contains_byte, ℤ, pos, negsuc, itoa, parse_int,
}
use skywalking_infra_e2e.Kind.{
  KindPort, PortLookup, need_expose, expose_real, second_part, first_part, service_port,
  build_kind_port, check_kube_config, missing_images, pulled, pull_images,
}

-- Exactly one of the two files is given where the configuration is accepted.
pub check_kube_config_iff :
    (a b : Text) → (check_kube_config a b ≡ none) ↔ (not (is_empty a) ≡ is_empty b)
unfolding check_kube_config
check_kube_config_iff a b = ground arith

-- Every image that is not there could be pulled.
abbrev pub Available : (Text → Bool) → (Text → Bool) → List Text → Type 0
Available local pull [] = Unit
Available local pull (i ∷ is) = ((local i || pull i) ≡ true) × Available local pull is

pulled_bound : (pull : Text → Bool) (l : List Text) → pulled pull l ≤ length l
unfolding pulled
pulled_bound pull [] = omega arith
pulled_bound pull (i ∷ is) = ground (arith, pulled_bound pull is)

pulled_all :
    (local pull : Text → Bool) (images : List Text)
    → (pulled pull (missing_images local images) ≡ length (missing_images local images))
      ↔ Available local pull images
unfolding pulled missing_images
pulled_all local pull [] = (λ h. tt, λ h. refl)
pulled_all local pull (i ∷ is) =
    ground (arith, pulled_all local pull is, pulled_bound pull (missing_images local is))

pulled_nothing : (pull : Text → Bool) (l : List Text) → is_nil l ≡ true → pulled pull l ≡ length l
unfolding pulled
pulled_nothing pull [] h = refl
pulled_nothing pull (i ∷ is) h = cc

-- Where the local images are known, importing images returns no error exactly where each image is
-- local or could be pulled.
pub pull_images_iff :
    (local pull : Text → Bool) (images : List Text)
    → (pull_images none (ok local) pull images ≡ none) ↔ Available local pull images
unfolding pull_images
pull_images_iff local pull images =
    ground (arith, pulled_all local pull images, pulled_nothing pull (missing_images local images))

digits_of_clear : (fuel n : ℕ) → contains_byte b':' (digits_of fuel n) ≡ false
unfolding digits_of contains_byte
digits_of_clear zero n = refl
digits_of_clear (suc fuel) n = ground (
  arith,
  digits_of_clear fuel (n / 10),
  contains_byte-append b':' (digits_of fuel (n / 10)) ((48 + n % 10) ∷ []),
)

-- A printed number holds no colon.
itoa_clear : (z : ℤ) → contains_byte b':' (itoa z) ≡ false
unfolding itoa contains_byte
itoa_clear (pos n) = digits_of_clear (suc n) n
itoa_clear (negsuc n) = digits_of_clear (suc (suc n)) (suc n)

first_part_clear : (d : ℕ) (s : Text) → contains_byte d (first_part (split d s)) ≡ false
unfolding split contains_byte
first_part_clear d [] = refl
first_part_clear d (c ∷ s) = ground (arith, first_part_clear d s)

nil_clear : (d : ℕ) → contains_byte d [] ≡ false
unfolding contains_byte
nil_clear d = refl

-- The remote part of what is exposed.
abbrev pub remote_part : Text → Text
remote_part t = second_part (split b':' t)

remote_of_pair :
    (a b : Text)
    → contains_byte b':' a ≡ false
    → contains_byte b':' b ≡ false
    → remote_part (a ++ (b':' ∷ b)) ≡ b
remote_of_pair a b h k = rw (split-append b':' a b h, split_single b':' b k) refl

remote_need : (port : Text) → remote_part (need_expose port).0 ≡ (need_expose port).1
unfolding need_expose
remote_need port = elim (Bool-cases (contains_byte b':' port)) [
  | inl e ↦ rw e refl
  | inr e ↦ rw e (remote_of_pair [] port (nil_clear b':') e)
]

remote_real :
    (port : Text) (real : ℤ)
    → remote_part (expose_real port (need_expose port).0 (need_expose port).1 real) ≡ itoa real
unfolding expose_real
remote_real port real = elim (Bool-cases (text_eq (itoa real) (need_expose port).1)) [
  | inl e ↦ rw e (remote_need port ∙ sym ((text_eq_iff _ _).0 e))
  | inr e ↦ rw e (remote_of_pair _ (itoa real) (local_clear port) (itoa_clear real))
]
  where
    local_clear :
        (p : Text)
        → contains_byte b':' (if contains_byte b':' p then first_part (split b':' p) else [])
          ≡ false
    local_clear p = ground (arith, first_part_clear b':' p, nil_clear b':')

-- What the port of a service refers to: the port of the pod that the look-up gives for the port of
-- the service, which is the number that the text reads as, else the one with the text as its name.
abbrev pub RefersTo : PortLookup → Text → ℤ → Type 0
RefersTo l remote real =
    (portnum : ℤ) × (((parse_int (2 ^ 31) remote ≡ some portnum)
        ⊎ ((parse_int (2 ^ 31) remote ≡ none) × (l.service_by_name remote ≡ ok portnum)))
      × (l.container_by_service portnum ≡ ok real))

service_port_lem :
    (l : PortLookup) (remote : Text) {n : ℤ}
    → service_port l remote ≡ ok n
    → (parse_int (2 ^ 31) remote ≡ some n)
      ⊎ ((parse_int (2 ^ 31) remote ≡ none) × (l.service_by_name remote ≡ ok n))
unfolding service_port
service_port_lem l remote {n} h = elim (Option-cases (parse_int (2 ^ 31) remote)) [
  | inl e ↦ inr (e, ground arith)
  | inr (m, e) ↦ inl (ground arith)
]

-- For a service, the remote part of what is exposed is the port of the pod that the look-up gives
-- for the port of the service: for the number that the remote port reads as with 32 bits, else for
-- the port of the service with that name, and with or without a local port in front; the input
-- port is the remote port as it was written.
pub build_kind_port-forwards :
    (l : PortLookup) (port : Text) {k : KindPort}
    → build_kind_port l true port ≡ ok k
    → RefersTo l k.input_port k.real_port
      × (remote_part k.wait_expose ≡ itoa k.real_port)
      × (k.input_port ≡ (need_expose port).1)
unfolding build_kind_port
build_kind_port-forwards l port {k} h =
    let (portnum, e, rest) = >>=-eq-ok (service_port l (need_expose port).1) _ h in
    let (real, f, last) = >>=-eq-ok (l.container_by_service portnum) _ rest in
    let read : k.input_port ≡ (need_expose port).1 = ground arith in
    let same : k.real_port ≡ real = ground arith in
    let shown : remote_part k.wait_expose ≡ itoa k.real_port =
      ground (arith, remote_real port real) in
    (
      (
        portnum,
        (
          subst
              (λ t.
                (parse_int (2 ^ 31) t ≡ some portnum)
                ⊎ ((parse_int (2 ^ 31) t ≡ none) × (l.service_by_name t ≡ ok portnum)))
              (sym read) (service_port_lem l (need_expose port).1 {n = portnum} e),
          f ∙ ap ok (sym same),
        ),
      ),
      shown,
      read,
    )
