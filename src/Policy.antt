-- ===== src/Policy.antt =====
-- mcp_router/core/policy.py: what an endpoint's policy allows, for direct calls and for the lists
-- that discovery returns. A frozenset is a list of which only membership is read.
pub mod Authorize
pub mod Projection
mod Tests
use Prim.Native.String
use mcp_mux_2_0_dev.Base.{
  String, Option, none, some, List, [], ◌∷◌, Bool, true, false, ◌&&◌, ◌||◌, not, ◌==◌, elem,
  is_some, if◌then◌else◌,
}
use mcp_mux_2_0_dev.Base.Text.{strip, starts_with, str_drop}
use mcp_mux_2_0_dev.Json.{Json, arr, obj, Items, nil, cons, Fields, get, put, name_of, Codec}
use mcp_mux_2_0_dev.Config.{Endpoint, base}

pub record PolicyDecision : Type 0 where
  pub allowed : Bool
  pub principal : String
  pub endpoint : String
  pub method : String
  pub name : Option String
  pub reason : Option String

pub record CapabilityPolicy : Type 0 where
  pub allowed_methods : Option (List String)
  pub denied_methods : Option (List String)
  pub allowed_tools : Option (List String)
  pub denied_tools : Option (List String)
  pub allowed_resources : Option (List String)
  pub denied_resources : Option (List String)
  pub allowed_prompts : Option (List String)
  pub denied_prompts : Option (List String)

unfoldable pub from_endpoint : Endpoint → CapabilityPolicy
from_endpoint e = record {
  allowed_methods = (base e).allowed_methods;
  denied_methods = (base e).denied_methods;
  allowed_tools = (base e).allowed_tools;
  denied_tools = (base e).denied_tools;
  allowed_resources = (base e).allowed_resources;
  denied_resources = (base e).denied_resources;
  allowed_prompts = (base e).allowed_prompts;
  denied_prompts = (base e).denied_prompts;
}

unfoldable pub has_discovery_projection : CapabilityPolicy → Bool
has_discovery_projection p =
    is_some p.allowed_tools
    || is_some p.denied_tools
    || is_some p.allowed_resources
    || is_some p.denied_resources
    || is_some p.allowed_prompts
    || is_some p.denied_prompts

-- the lists that govern the names of a method
abbrev pub NameLists : Type 0
NameLists = Option (List String) × Option (List String)

unfoldable pub name_lists : CapabilityPolicy → String → Option String → NameLists
name_lists p method name =
    if method == "tools/call"
    then (p.allowed_tools, p.denied_tools)
    else if (elem method ("resources/read" ∷ "resources/subscribe" ∷ "resources/unsubscribe" ∷ []))
        || ((method == "subscriptions/listen") && is_some name)
    then (p.allowed_resources, p.denied_resources)
    else if method == "prompts/get"
    then (p.allowed_prompts, p.denied_prompts)
    else (none, none)

-- `allowed is not None and x not in allowed`
abbrev pub left_out : Option (List String) → String → Bool
left_out none x = false
left_out (some xs) x = not (elem x xs)

-- `denied is not None and x in denied`
abbrev pub shut_out : Option (List String) → String → Bool
shut_out none x = false
shut_out (some xs) x = elem x xs

-- `allowed_names is not None and (name is None or name not in allowed_names)`
abbrev pub name_left_out : Option (List String) → Option String → Bool
name_left_out none name = false
name_left_out (some xs) none = true
name_left_out (some xs) (some n) = not (elem n xs)

-- `denied_names is not None and name is not None and name in denied_names`
abbrev pub name_shut_out : Option (List String) → Option String → Bool
name_shut_out denied none = false
name_shut_out denied (some n) = shut_out denied n

unfoldable pub authorize :
    CapabilityPolicy → String → String → String → Option String → PolicyDecision
unfolding name_lists
authorize p principal endpoint method name =
    let decide = λ (allowed : Bool) (reason : Option String).
      let d : PolicyDecision = record {
        allowed = allowed;
        principal = principal;
        endpoint = endpoint;
        method = method;
        name = name;
        reason = reason;
      } in
      d in
    let lists = name_lists p method name in
    if left_out p.allowed_methods method
    then decide false (some "method is not allowed")
    else if shut_out p.denied_methods method
    then decide false (some "method is denied")
    else if name_left_out lists.0 name
    then decide false (some "capability is not allowed")
    else if name_shut_out lists.1 name
    then decide false (some "capability is denied")
    else decide true none

-- Whether a discovery list shows an item: one that is no object always, any other if a call by
-- its name is allowed.
unfoldable pub shows : CapabilityPolicy → String → String → String → String → Json → Bool
unfolding authorize
shows p principal endpoint method name_key (obj item) =
    (authorize p principal endpoint method (name_of (get name_key item))).allowed
shows p principal endpoint method name_key _ = true

-- The loop over the items of one list: what is kept, and whether anything is left out.
unfoldable pub project_items : (Json → Bool) → Items → Items × Bool
project_items keep nil = (nil, false)
project_items keep (cons item items) =
    let (projected, list_changed) = project_items keep items in
    if keep item then (cons item projected, list_changed) else (projected, true)

-- one row of the table of list keys, methods and name keys
pub record Section : Type 0 where
  pub key : String
  pub method : String
  pub name_key : String

abbrev pub sections : List Section
sections =
    record { key = "tools"; method = "tools/call"; name_key = "name" }
    ∷ record { key = "resources"; method = "resources/read"; name_key = "uri" }
    ∷ record { key = "prompts"; method = "prompts/get"; name_key = "name" }
    ∷ []

abbrev pub store : String → Fields → Items × Bool → Fields × Bool
store key result (projected, list_changed) =
    if list_changed then (put key (arr projected) result, true) else (result, false)

unfoldable pub project_list : (Json → Bool) → String → Fields → Option Json → Fields × Bool
unfolding project_items
project_list keep key result (some (arr items)) = store key result (project_items keep items)
project_list keep key result _ = (result, false)

-- The loop over the sections: the result object, and whether it changed.
unfoldable pub project_sections :
    CapabilityPolicy → String → String → List Section → Fields → Fields × Bool
unfolding shows project_list
project_sections p principal endpoint [] result = (result, false)
project_sections p principal endpoint (s ∷ rest) result =
    let keep = shows p principal endpoint s.method s.name_key in
    let (result', changed) = project_list keep s.key result (get s.key result) in
    let (result'', changed') = project_sections p principal endpoint rest result' in
    (result'', changed || changed')

abbrev pub render : Codec → String → String → Fields → Fields × Bool → String × Bool
render codec line_or_body prefix payload (result, true) =
    (String.◌++◌ prefix (codec.dumps (obj (put "result" (obj result) payload))), true)
render codec line_or_body prefix payload (result, false) = (line_or_body, false)

abbrev pub project_result :
    Codec
    → CapabilityPolicy
    → String
    → String
    → String
    → String
    → Fields
    → Option Json
    → String × Bool
project_result codec p principal endpoint text prefix payload (some (obj result)) =
    render codec text prefix payload (project_sections p principal endpoint sections result)
project_result codec p principal endpoint text prefix payload _ = (text, false)

abbrev pub project_payload :
    Codec → CapabilityPolicy → String → String → String → String → Option Json → String × Bool
project_payload codec p principal endpoint text prefix (some (obj payload)) =
    project_result codec p principal endpoint text prefix payload (get "result" payload)
project_payload codec p principal endpoint text prefix _ = (text, false)

unfoldable pub project_json_text :
    Codec → CapabilityPolicy → String → String → String → String × Bool
unfolding project_sections
project_json_text codec p principal endpoint line_or_body =
    if starts_with line_or_body "data: "
    then project_payload codec p principal endpoint line_or_body "data: "
        (codec.loads (strip (str_drop 6 line_or_body)))
    else project_payload codec p principal endpoint line_or_body "" (codec.loads line_or_body)
