-- ===== src/Policy/Authorize.antt =====
-- `CapabilityPolicy.authorize` of policy.py against an independent statement of what is allowed.
use mcp_mux_2_0_dev.Base.{
  String, ◌≡◌, subst, ◌↔◌, ◌⊎◌, inl, inr, Option, none, some, List, true, false, arith, elem,
  is_some, eq_iff,
}
use mcp_mux_2_0_dev.Policy.{
  CapabilityPolicy, NameLists, name_lists, authorize, name_left_out, name_shut_out,
}

-- a list of allowed things, if there is one, has the thing
abbrev pub InAllowed : Option (List String) → Option String → Type 0
InAllowed none x = Unit {0}
InAllowed (some xs) none = ⊥
InAllowed (some xs) (some x) = elem x xs ≡ true

-- a list of denied things, if there is one, does not have the thing
abbrev pub NotDenied : Option (List String) → Option String → Type 0
NotDenied none x = Unit {0}
NotDenied (some xs) none = Unit {0}
NotDenied (some xs) (some x) = elem x xs ≡ false

abbrev pub Passes : NameLists → Option String → Type 0
Passes (allowed, denied) name = InAllowed allowed name × NotDenied denied name

-- a method that reads or watches resources; listening does if it names one
abbrev pub IsResourceAccess : String → Option String → Type 0
IsResourceAccess method name =
    (method ≡ "resources/read")
    ⊎ ((method ≡ "resources/subscribe")
        ⊎ ((method ≡ "resources/unsubscribe")
            ⊎ ((method ≡ "subscriptions/listen") × (is_some name ≡ true))))

-- what a policy lets through: the method, and the name against the lists of its kind
pub record Permits (p : CapabilityPolicy) (method : String) (name : Option String) : Type 0 where
  pub on_method : Passes (p.allowed_methods, p.denied_methods) (some method)
  pub on_tool : method ≡ "tools/call" → Passes (p.allowed_tools, p.denied_tools) name
  pub on_resource :
      IsResourceAccess method name → Passes (p.allowed_resources, p.denied_resources) name
  pub on_prompt : method ≡ "prompts/get" → Passes (p.allowed_prompts, p.denied_prompts) name

Passes-iff :
    (lists : NameLists) (name : Option String)
    → ((name_left_out lists.0 name ≡ false) × (name_shut_out lists.1 name ≡ false))
      ↔ Passes lists name
Passes-iff (none, none) none = ground arith
Passes-iff (none, some ys) none = ground arith
Passes-iff (some xs, none) none = ground arith
Passes-iff (some xs, some ys) none = ground arith
Passes-iff (none, none) (some n) = ground arith
Passes-iff (none, some ys) (some n) = ground arith
Passes-iff (some xs, none) (some n) = ground arith
Passes-iff (some xs, some ys) (some n) = ground arith

module _ (p : CapabilityPolicy) where
  name_lists-tool :
      (method : String) (name : Option String)
      → method ≡ "tools/call"
      → name_lists p method name ≡ (p.allowed_tools, p.denied_tools)
  unfolding name_lists
  name_lists-tool method name e = rw e

  name_lists-resource :
      (method : String) (name : Option String)
      → IsResourceAccess method name
      → name_lists p method name ≡ (p.allowed_resources, p.denied_resources)
  unfolding name_lists elem
  name_lists-resource method name (inl e) = rw e
  name_lists-resource method name (inr (inl e)) = rw e
  name_lists-resource method name (inr (inr (inl e))) = rw e
  name_lists-resource method name (inr (inr (inr (e, named)))) = rw (e, named)

  name_lists-prompt :
      (method : String) (name : Option String)
      → method ≡ "prompts/get"
      → name_lists p method name ≡ (p.allowed_prompts, p.denied_prompts)
  unfolding name_lists elem
  name_lists-prompt method name e = rw e

  -- the lists come from one of the three kinds, or there are none
  name_lists-from :
      (method : String) (name : Option String)
      → (method ≡ "tools/call" → Passes (p.allowed_tools, p.denied_tools) name)
      → (IsResourceAccess method name → Passes (p.allowed_resources, p.denied_resources) name)
      → (method ≡ "prompts/get" → Passes (p.allowed_prompts, p.denied_prompts) name)
      → Passes (name_lists p method name) name
  unfolding name_lists elem
  name_lists-from method name on_tool on_resource on_prompt = ground (
    arith,
    eq_iff method "tools/call",
    eq_iff method "resources/read",
    eq_iff method "resources/subscribe",
    eq_iff method "resources/unsubscribe",
    eq_iff method "subscriptions/listen",
    eq_iff method "prompts/get",
  )

module _ (p : CapabilityPolicy) (principal endpoint method : String) (name : Option String) where
  allowed_iff_Passes : ((authorize p principal endpoint method name).allowed ≡ true) ↔ (
      Passes (p.allowed_methods, p.denied_methods) (some method)
      × Passes (name_lists p method name) name)
  unfolding authorize
  allowed_iff_Passes = ground (
    arith,
    Passes-iff (p.allowed_methods, p.denied_methods) (some method),
    Passes-iff (name_lists p method name) name,
  )

  -- the lists that govern a name are those of the method's kind
  name_lists_iff : Passes (name_lists p method name) name ↔ (
      (method ≡ "tools/call" → Passes (p.allowed_tools, p.denied_tools) name)
      × (IsResourceAccess method name → Passes (p.allowed_resources, p.denied_resources) name)
      × (method ≡ "prompts/get" → Passes (p.allowed_prompts, p.denied_prompts) name))
  name_lists_iff = (
    λ h. (
      λ e. subst (λ l. Passes l name) (name_lists-tool p method name e) h,
      λ e. subst (λ l. Passes l name) (name_lists-resource p method name e) h,
      λ e. subst (λ l. Passes l name) (name_lists-prompt p method name e) h,
    ),
    λ h. name_lists-from p method name h.0 h.1 h.2,
  )

  -- A call is allowed exactly when the method passes the method lists, and its name passes the
  -- lists of the method's kind: those of tools, of resources or of prompts. A method of no such
  -- kind is held to the method lists alone.
  pub authorize_iff_Permits :
      ((authorize p principal endpoint method name).allowed ≡ true) ↔ Permits p method name
  authorize_iff_Permits = (read, write)
    where
      read : (authorize p principal endpoint method name).allowed ≡ true → Permits p method name
      read h =
          let (on_method, on_name) = allowed_iff_Passes.0 h in
          let (on_tool, on_resource, on_prompt) = name_lists_iff.0 on_name in
          record {
            on_method = on_method;
            on_tool = on_tool;
            on_resource = on_resource;
            on_prompt = on_prompt;
          }

      write : Permits p method name → (authorize p principal endpoint method name).allowed ≡ true
      write h =
          allowed_iff_Passes.1
            (h.on_method, name_lists_iff.1 (h.on_tool, h.on_resource, h.on_prompt))

  -- The decision repeats what was asked, and gives a reason exactly when it refuses.
  pub authorize_reports :
      let d = authorize p principal endpoint method name in
      (d.principal ≡ principal)
      × (d.endpoint ≡ endpoint)
      × (d.method ≡ method)
      × (d.name ≡ name)
      × ((d.allowed ≡ true) ↔ (d.reason ≡ none))
  unfolding authorize
  authorize_reports = ground arith
