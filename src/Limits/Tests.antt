-- ===== src/Limits/Tests.antt =====
-- Runs of the limiter of limits.py on concrete requests.
use mcp_mux_2_0_dev.Base.{◌≡◌, refl, none, some, List, [], ◌∷◌, false, filter}
use mcp_mux_2_0_dev.Base.Dict.{lookup, insert}
use mcp_mux_2_0_dev.Samples.{remote_tools}
use mcp_mux_2_0_dev.Limits.{
  LimitLease, leased, acquire, release, limit_specs, is_limited, check_specs, bucket_at,
  charge_specs,
}
use mcp_mux_2_0_dev.Limits.Counts.{active_of}
use mcp_mux_2_0_dev.Limits.Admission.{Granted, acquire-Granted}
use mcp_mux_2_0_dev.Limits.Ledger.{
  Call, request, finish, IsBalanced, init, held_all, run, run-IsBalanced, release-acquire,
}

abbrev search_lease : LimitLease
search_lease = record { keys = "endpoint:tools" ∷ "tool:tools:search" ∷ []; released = false }

grants_search : (acquire 5 remote_tools (some "search") []).0 ≡ leased search_lease
unfolding acquire filter check_specs bucket_at lookup insert charge_specs
grants_search = refl

acquire-Granted_example :
    Granted
      (filter is_limited (limit_specs remote_tools (some "search")))
      (acquire 5 remote_tools (some "search") [])
acquire-Granted_example = acquire-Granted 5 remote_tools (some "search") []

abbrev calls : List Call
calls =
    request 5 remote_tools (some "search")
    ∷ request 6 remote_tools (some "search")
    ∷ request 7 remote_tools none
    ∷ finish 1
    ∷ finish 1
    ∷ finish 0
    ∷ []

init-IsBalanced : IsBalanced init
unfolding bucket_at lookup held_all
init-IsBalanced k = refl

run-IsBalanced_example : IsBalanced (run init calls)
run-IsBalanced_example = run-IsBalanced init calls init-IsBalanced

release-acquire_example :
    active_of "tool:tools:search"
      (release search_lease (acquire 5 remote_tools (some "search") []).1).1
    ≡ active_of "tool:tools:search" []
release-acquire_example =
    release-acquire 5 remote_tools (some "search") [] search_lease "tool:tools:search" grants_search
