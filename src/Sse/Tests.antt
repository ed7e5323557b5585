-- ===== src/Sse/Tests.antt =====
-- A concrete event through the rewriting of sse.py.
use mcp_mux_2_0_dev.Base.{String, ◌≡◌, ◌≢◌, refl, sym, ◌∙◌, List, [], ◌∷◌}
use mcp_mux_2_0_dev.Base.Text.{join, starts_with, partition, str_drop}
use mcp_mux_2_0_dev.Sse.{transform_sse_event, data_value}
use mcp_mux_2_0_dev.Sse.Shape.{values}
use mcp_mux_2_0_dev.Sse.Payload.{transform_sse_event-payload}

abbrev event : List String
event = "event: message" ∷ "data: one" ∷ "id: 4" ∷ "data: two" ∷ []

abbrev shorten : String → String
shorten payload = "short"

event-values : values event ≡ "one" ∷ "two" ∷ []
unfolding values data_value starts_with partition str_drop
event-values = refl

cons_ne_nil : {x : String} {xs : List String} → x ∷ xs ≢ []
cons_ne_nil e = cc

has_data : values event ≢ []
has_data e = cons_ne_nil (sym event-values ∙ e)

transform_sse_event-payload_example :
    join "\n" (values (transform_sse_event event shorten)) ≡ shorten (join "\n" (values event))
transform_sse_event-payload_example = transform_sse_event-payload shorten event has_data
