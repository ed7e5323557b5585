-- ===== src/Server/Authority.antt =====
-- server.py, catch_all_proxy: what a request must have passed before it is charged or reaches the
-- endpoint's runtime.
use mcp_mux_2_0_dev.Base.{
  ◌≡◌, ◌⊎◌, inl, inr, refl, Option, none, some, List, [], ◌∷◌, not, any, All, false, arith,
  Bool-cases, String,
}
use mcp_mux_2_0_dev.Config.{Endpoint, base}
use mcp_mux_2_0_dev.Policy.{authorize, from_endpoint}
use mcp_mux_2_0_dev.Policy.Authorize.{Permits, authorize_iff_Permits}
use mcp_mux_2_0_dev.Protocol.{ParsedRequest, ProtocolEra, Result, ok, err}
use mcp_mux_2_0_dev.Protocol.Validate.{extract_policy_request_names}
use mcp_mux_2_0_dev.Server.Leases.{Request, Surroundings, Gateway, Outcome, nothing}
use mcp_mux_2_0_dev.Server.Checks.{
  Checked, refuse, proceed, check_request, authorize_names, is_denied, names_or_none,
  authorize_request,
}
use mcp_mux_2_0_dev.Server.Dispatch.{Endings, catch_all_proxy, with_authorization, with_checked}

-- The outcome holds no lease, and the limits and the runtime are as they were.
pub record Untouched (g : Gateway) (o : Outcome) : Type 0 where
  pub held : o.held ≡ nothing
  pub buckets : o.state.buckets ≡ g.buckets
  pub runtime : o.state.runtime ≡ g.runtime

-- The request has no message, or its message was accepted and the policy of the endpoint permits
-- its method with every name that it uses.
pub data Cleared (env : Surroundings) (endpoint : Endpoint) (request : Request) : Type 0 where
  without_message :
      (era : ProtocolEra)
      → check_request env endpoint request ≡ proceed none era
      → Cleared env endpoint request
  permitted :
      (parsed : ParsedRequest) (era : ProtocolEra) (names : List (Option String))
      → check_request env endpoint request ≡ proceed (some parsed) era
      → extract_policy_request_names parsed ≡ ok names
      → All (Permits (from_endpoint endpoint) parsed.method) (names_or_none names)
      → Cleared env endpoint request

Permits-all :
    (endpoint : Endpoint) (request : Request) (parsed : ParsedRequest)
    (names : List (Option String))
    → any
        (λ (name : Option String).
          not
            (authorize
              (from_endpoint endpoint)
              request.principal
              (base endpoint).path
              parsed.method
              name).allowed)
        names
      ≡ false
    → All (Permits (from_endpoint endpoint) parsed.method) names
unfolding any
Permits-all endpoint request parsed [] h = tt
Permits-all endpoint request parsed (name ∷ names) h = (
  (authorize_iff_Permits (from_endpoint endpoint) request.principal (base endpoint).path
        parsed.method name).0
      (ground arith),
  Permits-all endpoint request parsed names (ground arith),
)

module _ (env : Surroundings) (endings : Endings) (request : Request) (g : Gateway) where
  named :
      (parsed : ParsedRequest) (era : ProtocolEra) (names : Result (List (Option String)))
      → check_request env g.runtime.config request ≡ proceed (some parsed) era
      → extract_policy_request_names parsed ≡ names
      → Untouched g (
          with_authorization env endings g.runtime.config request era g
            (authorize_names g.runtime.config request parsed names))
        ⊎ Cleared env g.runtime.config request
  unfolding is_denied
  named parsed era (err e) accepted h = inl (record { held = refl; buckets = refl; runtime = refl })
  named parsed era (ok names) accepted h =
      elim (Bool-cases (is_denied g.runtime.config request parsed names)) [
        | inl denied ↦ rw denied (inl (record { held = refl; buckets = refl; runtime = refl }))
        | inr fine ↦ inr (
            permitted parsed era names accepted h
              (Permits-all g.runtime.config request parsed (names_or_none names) fine))
      ]

  judged :
      (c : Checked)
      → check_request env g.runtime.config request ≡ c
      → Untouched g (with_checked env endings g.runtime.config request g c)
        ⊎ Cleared env g.runtime.config request
  unfolding authorize_request
  judged (refuse reply) h = inl (record { held = refl; buckets = refl; runtime = refl })
  judged (proceed none era) h = inr (without_message era h)
  judged (proceed (some parsed) era) h =
      named parsed era (extract_policy_request_names parsed) h refl

  -- Whatever a request is: either it takes no limiter slot, holds no lease and leaves the endpoint's
  -- runtime as it is, so that it starts no process; or it has no message, or a message that passed
  -- the checks and whose method the endpoint's policy permits with every name that it uses.
  pub catch_all_proxy-Cleared :
      Untouched g (catch_all_proxy env endings request g) ⊎ Cleared env g.runtime.config request
  unfolding catch_all_proxy
  catch_all_proxy-Cleared = judged (check_request env g.runtime.config request) refl
