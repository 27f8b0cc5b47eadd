-- ===== src/Compose/Exports.antt =====
-- The variables that are exported for a service.
use skywalking_infra_e2e.Base.{
  ℕ, ◌≡◌, refl, sym, ap, ap₂, ◌∙◌, false, none, some, List, [], ◌∷◌, ◌++◌, arith, if◌then◌else◌,
  is_nil, int_eq, Text, ok, ℤ, pos, itoa_nat,
}
use skywalking_infra_e2e.Compose.{
  Container, Docker, ComposeService, Exports, service_container, export_compose_env, then_export,
  host_key, port_key, expose_port, expose_ports_from, expose_compose_port,
}

-- The first published port of a container with a private number, if it has one.
abbrev pub first_public : ℤ → List (ℕ × ℕ) → List (ℕ × ℕ)
first_public n [] = []
first_public n ((private, public) ∷ ports) =
    let rest = first_public n ports in
    if int_eq (pos private) n then (private, public) ∷ [] else rest

abbrev pub published : List ℤ → List (ℕ × ℕ) → List (ℕ × ℕ)
published [] ports = []
published (n ∷ ns) ports = first_public n ports ++ published ns ports

module _ (d : Docker) where
  abbrev pub port_entries : ComposeService → List (ℕ × ℕ) → List (Text × Text)
  port_entries s [] = []
  port_entries s ((private, public) ∷ ports) =
      (port_key d s private, itoa_nat public) ∷ port_entries s ports

  port_entries-append :
      (s : ComposeService) (a b : List (ℕ × ℕ))
      → port_entries s (a ++ b) ≡ port_entries s a ++ port_entries s b
  port_entries-append s [] b = refl
  port_entries-append s (p ∷ a) b =
      ap (λ l. (port_key d s p.0, itoa_nat p.1) ∷ l) (port_entries-append s a b)

  then_export-ok :
      (a b : Exports) (x y : List (Text × Text))
      → (a.1 ≡ none → a.0 ≡ x)
      → (b.1 ≡ none → b.0 ≡ y)
      → (then_export d a b).1 ≡ none
      → (then_export d a b).0 ≡ x ++ y
  unfolding then_export
  then_export-ok (a, none) b x y h k e = ap₂ (λ l m. l ++ m) (h refl) (k e)
  then_export-ok (a, some z) b x y h k e = cc

  export_ok :
      (key value service : Text)
      → (export_compose_env d key value service).1 ≡ none
      → (export_compose_env d key value service).0 ≡ (key, value) ∷ []
  unfolding export_compose_env
  export_ok key value service h = ground arith

  expose_port-first :
      (s : ComposeService) (c : Container) (n : ℤ) (ports : List (ℕ × ℕ))
      → (expose_port d s c n ports).1 ≡ none
      → (expose_port d s c n ports).0 ≡ port_entries s (first_public n ports)
  unfolding expose_port
  expose_port-first s c n [] h = refl
  expose_port-first s c n ((private, public) ∷ ports) h = ground (
    arith,
    expose_port-first s c n ports,
    export_ok (port_key d s private) (itoa_nat public) s.name,
  )

  expose_ports_from-published :
      (s : ComposeService) (c : Container) (ns : List ℤ)
      → (expose_ports_from d s c ns).1 ≡ none
      → (expose_ports_from d s c ns).0 ≡ port_entries s (published ns c.ports)
  unfolding expose_ports_from
  expose_ports_from-published s c [] h = refl
  expose_ports_from-published s c (n ∷ ns) h =
      then_export-ok _ _ _ _ (expose_port-first s c n c.ports) (expose_ports_from-published s c ns)
        h
      ∙ sym (port_entries-append s (first_public n c.ports) (published ns c.ports))

  -- Where a service has ports, its container is found and no error is returned, the host is
  -- exported, and behind it, for each expected port that the container has, in order, its first
  -- published port; an expected port that the container does not have is passed over.
  pub expose_compose_port-published :
      (identity : Text) (s : ComposeService) {host : Text} {c : Container}
      → is_nil s.expect_ports ≡ false
      → d.daemon_host ≡ ok host
      → service_container d s identity ≡ ok c
      → (expose_compose_port d identity s).1 ≡ none
      → (expose_compose_port d identity s).0
        ≡ (host_key d s, host) ∷ port_entries s (published s.expect_ports c.ports)
  unfolding expose_compose_port
  expose_compose_port-published identity s {host} {c} some_ports h k e = ground (
    arith,
    then_export-ok (export_compose_env d (host_key d s) host s.name)
        (expose_ports_from d s c s.expect_ports) ((host_key d s, host) ∷ [])
        (port_entries s (published s.expect_ports c.ports)) (export_ok (host_key d s) host s.name)
        (expose_ports_from-published s c s.expect_ports),
  )
