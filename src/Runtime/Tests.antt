-- ===== src/Runtime/Tests.antt =====
-- Runs of the leases of runtime.py on a concrete endpoint.
use mcp_mux_2_0_dev.Base.{refl, List, [], ◌∷◌}
use mcp_mux_2_0_dev.Samples.{remote_tools}
use mcp_mux_2_0_dev.Runtime.{from_config}
use mcp_mux_2_0_dev.Runtime.Leases.{
  Ledger, Call, acquires, releases, run, IsCounted, open_leases, run-IsCounted,
}

abbrev fresh : Ledger
fresh = record { runtime = from_config remote_tools 4; leases = [] }

abbrev calls : List Call
calls = acquires ∷ acquires ∷ releases 9 1 ∷ releases 10 1 ∷ []

fresh-IsCounted : IsCounted fresh
unfolding from_config open_leases
fresh-IsCounted = refl

run-IsCounted_example : IsCounted (run fresh calls)
run-IsCounted_example = run-IsCounted fresh calls fresh-IsCounted
