-- ===== src/Policy/Tests.antt =====
-- A concrete policy of policy.py, asked about calls and discovery results.
use mcp_mux_2_0_dev.Base.{String, ◌≡◌, refl, ◌↔◌, some, true}
use mcp_mux_2_0_dev.Json.{str, arr, obj, nil, cons, Fields, field, end}
use mcp_mux_2_0_dev.Samples.{remote_tools}
use mcp_mux_2_0_dev.Policy.{
  CapabilityPolicy, from_endpoint, authorize, Section, sections, project_sections,
}
use mcp_mux_2_0_dev.Policy.Authorize.{Permits, authorize_iff_Permits}
use mcp_mux_2_0_dev.Policy.Projection.{Listed, MayShow, here, discovery_iff}

abbrev policy : CapabilityPolicy
policy = from_endpoint remote_tools

authorize_iff_Permits_example :
    ((authorize policy "local" "tools" "tools/call" (some "drop")).allowed ≡ true)
    ↔ Permits policy "tools/call" (some "drop")
authorize_iff_Permits_example =
    authorize_iff_Permits policy "local" "tools" "tools/call" (some "drop")

abbrev named : String → Fields
named name = field "name" (str name) end

abbrev listing : Fields
listing =
    field "tools" (arr (cons (obj (named "drop")) (cons (obj (named "search")) nil)))
      (field "nextCursor" (str "2") end)

abbrev tools : Section
tools = record { key = "tools"; method = "tools/call"; name_key = "name" }

discovery_iff_example :
    Listed "tools" (project_sections policy "local" "tools" sections listing).0 (obj (named "drop"))
    ↔ (Listed "tools" listing (obj (named "drop"))
        × MayShow policy "local" "tools" tools (obj (named "drop")))
discovery_iff_example =
    discovery_iff policy "local" "tools" listing tools (obj (named "drop")) (here refl)
