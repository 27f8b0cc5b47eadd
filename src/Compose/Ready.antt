-- ===== src/Compose/Ready.antt =====
-- The wait for the port of a container and the log of a container (`waitPortUntilReady` and
-- `exposeComposeLog`, internal/components/setup/compose.go), and what they say of the variables
-- that are exported.
use skywalking_infra_e2e.Base.{
  ℕ, ◌≡◌, Option, none, some, ◌++◌, Text, codes, Result, ok, err, ℤ, itoa,
}
use skywalking_infra_e2e.Logs.{LogFollower, LogDisk, build_log_writer}
use skywalking_infra_e2e.Compose.{Container, Docker}
use skywalking_infra_e2e.Compose.Provider.{NatPort}
use skywalking_infra_e2e.Compose.WaitPort.{
  find_mapped_port, dialled, address_of, Probe, wait_port, Loop, build_internal_check_command,
}
use skywalking_infra_e2e.Compose.WaitPort.Ends.{IsDialled, IsChecked, IsTarget}

-- `<port>/tcp`
abbrev pub tcp_port : ℤ → NatPort
tcp_port expect_port = record { number = itoa expect_port; proto = codes "tcp" }

-- `waitPortUntilReady`
unfoldable pub wait_port_until_ready : Probe → ℕ → ℤ → Loop (Option Text)
wait_port_until_ready p fuel expect_port = wait_port p fuel (tcp_port expect_port)

-- `exposeComposeLog`, with the output of the container: the file and the stream that is copied to
-- it, and the error.
unfoldable pub expose_compose_log :
    (Text → Result Text) → LogDisk → LogFollower → Text → Text → Option (Text × Text) × Option Text
expose_compose_log container_logs d l name id = elim (container_logs id) [
  | err x ↦ (none, some x)
  | ok stream ↦ elim (build_log_writer d l (name ++ codes "/std.log")) [
    | err x ↦ (none, some x)
    | ok file ↦ (some (file, stream), none)
  ]
]

-- The wait for a port of a `Docker` is the one above, with a probe of the container, and returns.
abbrev pub WaitsWith : Docker → (Container → Probe) → ℕ → Type 0
WaitsWith d probe fuel =
    (c : Container) (n : ℤ) → wait_port_until_ready (probe c) fuel n ≡ some (d.wait_port c n)

-- The container answers at the mapped port, and the check within it finds the port.
abbrev pub Answers : (Container → Probe) → ℕ → Container → ℤ → Type 0
Answers probe fuel c n =
    let p = probe c in
    (ip : Text) × (mapped : Result NatPort) × ((p.host ≡ ok ip)
      × (find_mapped_port p fuel 0 ≡ some mapped)
      × IsTarget p ip mapped
      × IsDialled p (dialled p mapped).proto (address_of p ip (dialled p mapped))
      × IsChecked p (build_internal_check_command (p.int (tcp_port n))))
