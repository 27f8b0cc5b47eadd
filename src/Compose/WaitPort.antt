-- ===== src/Compose/WaitPort.antt =====
-- The wait for a port (`WaitPort` and `findMappedPort`,
-- internal/components/setup/compose_provider.go). What docker and the network answer is a `Probe`,
-- by the number of the attempt. The loops run on fuel.
pub mod Ends
use skywalking_infra_e2e.Base.{
  ℕ, zero, suc, ◌+◌, ◌-◌, ◌/◌, ◌%◌, ◌≡◌, true, not, ◌&&◌, Option, none, some, [], ◌∷◌, ◌++◌, ltb,
  ◌==◌, if◌then◌else◌, length, Text, codes, Result, ok, err, contains_byte, itoa_nat,
}
use skywalking_infra_e2e.Compose.Provider.{NatPort}

-- How a dial ends: with a connection and the error of its close, with ECONNREFUSED, or with
-- another error.
pub data Dial : Type 0 where
  connected : Option Text → Dial
  refused : Dial
  dial_failed : Text → Dial

-- The port "".
abbrev pub no_port : NatPort
no_port = record { number = []; proto = [] }

-- `host` and `mapped` are the target's. `done` is the error of the context where the select takes
-- it, `ctx_err` is that of the second loop. `dial` takes the protocol and the address, `exec` the
-- command. `int` is nat.Port.Int, the number of a port, which is 0 for the port "".
pub record Probe : Type 0 where
  pub host : Result Text
  pub mapped : ℕ → Result NatPort
  pub done : ℕ → Option Text
  pub int : NatPort → ℕ
  pub int_no_port : int no_port ≡ 0
  pub dial : Text → Text → ℕ → Dial
  pub ctx_err : ℕ → Option Text
  pub exec : Text → ℕ → Result ℕ

-- net.JoinHostPort
unfoldable pub join_host_port : Text → Text → Text
join_host_port host port =
    if contains_byte b':' host
    then codes "[" ++ (host ++ (codes "]:" ++ port))
    else host ++ (b':' ∷ port)

hex_digit : ℕ → ℕ
hex_digit n = if ltb n 10 then b'0' + n else b'a' + (n - 10)

-- The hexadecimal digits of a number, on fuel.
hex : ℕ → ℕ → Text
unfolding hex_digit
hex zero n = []
hex (suc fuel) n =
    let rest = hex fuel (n / 16) in
    if ltb n 16 then hex_digit n ∷ [] else rest ++ (hex_digit (n % 16) ∷ [])

abbrev zeros : ℕ → Text
zeros zero = []
zeros (suc n) = b'0' ∷ zeros n

-- `%04x`
unfoldable pub hex4 : ℕ → Text
unfolding hex
hex4 n = let digits = hex (suc n) n in zeros (4 - length digits) ++ digits

-- `buildInternalCheckCommand`
unfoldable pub build_internal_check_command : ℕ → Text
build_internal_check_command port =
    codes "true && (\n\t\t\t\t\tcat /proc/net/tcp* | awk '{print $2}' | grep -i :"
    ++ (hex4 port
        ++ (codes " ||\n\t\t\t\t\tnc -vz -w 1 localhost "
            ++ (itoa_nat port
                ++ (codes " ||\n\t\t\t\t\t/bin/sh -c '</dev/tcp/localhost/"
                    ++ (itoa_nat port ++ codes "'\n\t\t\t\t)\n\t\t\t\t")))))

-- A loop that runs out of fuel has no result.
abbrev pub Loop : Type 0 → Type 0
Loop A = Option A

module _ (p : Probe) where
  -- `findMappedPort`, from its i-th wait on.
  unfoldable pub find_mapped_port : ℕ → ℕ → Loop (Result NatPort)
  find_mapped_port zero i = none
  find_mapped_port (suc fuel) i =
      let rest = find_mapped_port fuel (suc i) in
      elim (p.mapped i) [
        | ok port ↦ some (ok port)
        | err x ↦ elim (p.done i) [ some e ↦ some (err (e ++ (b':' ∷ x))) | none ↦ rest ]
      ]

  -- The loop of the external check, from the i-th dial on: its error.
  unfoldable pub external_check : ℕ → Text → Text → ℕ → Loop (Option Text)
  external_check zero proto address i = none
  external_check (suc fuel) proto address i =
      let rest = external_check fuel proto address (suc i) in
      elim (p.dial proto address i) [
        | connected close_error ↦ some close_error
        | refused ↦ rest
        | dial_failed x ↦ some (some x)
      ]

  -- The loop of the internal check, from the i-th command on: its error.
  unfoldable pub internal_check : ℕ → Text → ℕ → Loop (Option Text)
  internal_check zero command i = none
  internal_check (suc fuel) command i =
      let rest = internal_check fuel command (suc i) in
      elim (p.ctx_err i) [
        | some x ↦ some (some x)
        | none ↦ elim (p.exec command i) [
          | err x ↦ some (some x)
          | ok exit_code ↦
              if exit_code == 0
              then some none
              else if exit_code == 126
              then some (some (codes "/bin/sh command not executable"))
              else rest
        ]
      ]

  -- One loop behind another, if that returned no error.
  unfoldable pub then_check : Loop (Option Text) → Loop (Option Text) → Loop (Option Text)
  then_check none rest = none
  then_check (some (some x)) rest = some (some x)
  then_check (some none) rest = rest

  -- The port that is dialled: the error of `findMappedPort` is not looked at, its port is "" then.
  unfoldable pub dialled : Result NatPort → NatPort
  dialled (ok port) = port
  dialled (err x) = no_port

  abbrev pub address_of : Text → NatPort → Text
  address_of ip port = join_host_port ip (itoa_nat (p.int port))

  -- Both checks.
  unfoldable pub checks : ℕ → Text → NatPort → NatPort → Loop (Option Text)
  checks fuel ip port wait_port =
      then_check (external_check fuel port.proto (address_of ip port) 0)
        (internal_check fuel (build_internal_check_command (p.int wait_port)) 0)

  -- `WaitPort`
  unfoldable pub wait_port : ℕ → NatPort → Loop (Option Text)
  wait_port fuel port = elim p.host [
    | err x ↦ some (some x)
    | ok ip ↦ elim (find_mapped_port fuel 0) [
      | none ↦ none
      | some mapped ↦ checks fuel ip (dialled mapped) port
    ]
  ]
