-- ===== src/Compose/Ports.antt =====
-- The port of a port setting, and the number of an instance.
use skywalking_infra_e2e.Base.{
  split-append, split_single, read_digits, read_nat, in_range, >>=-eq-ok, ℕ, ◌+◌, ◌-◌, ◌*◌, ◌^◌,
  ◌≡◌, refl, inl, inr, Bool, true, false, Option, none, List, [], ◌∷◌, ◌++◌, arith, ◌==◌,
  Bool-cases, Text, ok, contains_byte, ℤ, pos, atoi, parse_int,
}
use skywalking_infra_e2e.Config.{Any, string}
use skywalking_infra_e2e.Compose.{
  port_of, get_expect_port, ports_of, ComposeService, build_compose_services, ends_numbered,
  last_line, whole_match, get_instance_name,
}

-- The expected port of a text is its part behind the first colon, up to the second one if there is
-- one: with an address before the ports that is the port of the host.
pub get_expect_port_mapped :
    (a b c : Text)
    → contains_byte b':' a ≡ false
    → contains_byte b':' b ≡ false
    → (get_expect_port (string (a ++ (b':' ∷ b))) ≡ port_of b)
      × (get_expect_port (string (a ++ (b':' ∷ (b ++ (b':' ∷ c))))) ≡ port_of b)
unfolding get_expect_port
get_expect_port_mapped a b c h k = (
  rw (split-append b':' a b h, split_single b':' b k) refl,
  rw (split-append b':' a (b ++ (b':' ∷ c)) h, split-append b':' b c k) refl,
)

read_digits_underscore :
    (acc : ℕ) (s : Text) → contains_byte b'_' s ≡ true → read_digits acc s ≡ none
unfolding read_digits contains_byte
read_digits_underscore acc [] h = cc
read_digits_underscore acc (c ∷ s) h =
    ground (arith, read_digits_underscore (acc * 10 + (c - 48)) s)

read_nat_underscore : (s : Text) → contains_byte b'_' s ≡ true → read_nat s ≡ none
unfolding read_nat
read_nat_underscore [] h = refl
read_nat_underscore (c ∷ s) h = read_digits_underscore 0 (c ∷ s) h

no_range : (limit : ℕ) (negative : Bool) → in_range limit negative none ≡ none
unfolding in_range
no_range limit negative = refl

tail_underscore :
    (c : ℕ) (s : Text)
    → contains_byte b'_' (c ∷ s) ≡ true
    → (c == b'_') ≡ false
    → contains_byte b'_' s ≡ true
unfolding contains_byte
tail_underscore c s h k = ground arith

-- A text with an underscore is no number.
atoi_underscore : (s : Text) → contains_byte b'_' s ≡ true → atoi s ≡ none
unfolding atoi parse_int
atoi_underscore [] h = refl
atoi_underscore (c ∷ s) h = elim (Bool-cases (c == b'_')) [
  | inl e ↦ ground arith
  | inr e ↦
      let tail = read_nat_underscore s (tail_underscore c s h e) in
      let whole = read_nat_underscore (c ∷ s) h in
      ground (arith, no_range (2 ^ 63) true, no_range (2 ^ 63) false)
]

ends_numbered-underscore : (s : Text) → ends_numbered s ≡ true → contains_byte b'_' s ≡ true
unfolding ends_numbered contains_byte
ends_numbered-underscore [] h = cc
ends_numbered-underscore (c ∷ s) h = ground (arith, ends_numbered-underscore s)

-- The number of an instance is 1 for every service name, also for one that ends in a number: the
-- whole match is read as a number, and not its group.
pub get_instance_name_first : (s : Text) → get_instance_name s ≡ (s, pos 1)
unfolding get_instance_name whole_match
get_instance_name_first s = elim (Bool-cases (ends_numbered (last_line s))) [
  | inl e ↦
      let none_read = atoi_underscore (last_line s) (ends_numbered-underscore (last_line s) e) in
      ground arith
  | inr e ↦ ground arith
]

-- Each service of the file is there, in order, with its own ports.
abbrev pub Built : List (Text × Option (List Any)) → List ComposeService → Type 0
Built [] [] = Unit
Built (f ∷ fs) (s ∷ ss) =
    (s.name ≡ f.0) × (ports_of f.1 ≡ ok s.expect_ports) × (s.been_follow_log ≡ false) × Built fs ss
Built _ _ = ⊥

Built-cons :
    (name : Text) (ports : Option (List Any)) (fs : List (Text × Option (List Any))) (ns : List ℤ)
    (services ss : List ComposeService)
    → ports_of ports ≡ ok ns
    → Built fs services
    → ok (record { name = name; expect_ports = ns; been_follow_log = false } ∷ services) ≡ ok ss
    → Built ((name, ports) ∷ fs) ss
Built-cons name ports fs ns services [] e b h = absurd (ground arith)
Built-cons name ports fs ns services (s ∷ ss) e b h =
    let same : services ≡ ss = ground arith in
    (ground arith, ground arith, ground arith, rw same at b)

-- The services that are built are those of the file, in order, each with the port of each of its
-- port settings.
pub build_compose_services-Built :
    (fs : List (Text × Option (List Any))) (ss : List ComposeService)
    → build_compose_services fs ≡ ok ss
    → Built fs ss
unfolding build_compose_services
build_compose_services-Built [] [] h = tt
build_compose_services-Built [] (s ∷ ss) h = absurd (ground arith)
build_compose_services-Built ((name, ports) ∷ fs) ss h =
    let (ns, e, rest) = >>=-eq-ok (ports_of ports) _ h in
    let (services, f, last) = >>=-eq-ok (build_compose_services fs) _ rest in
    Built-cons name ports fs ns services ss e (build_compose_services-Built fs services f) last
