-- ===== src/Policy/Projection.antt =====
-- `CapabilityPolicy.project_json_text` of policy.py: the lists that discovery returns, item by item.
use mcp_mux_2_0_dev.Base.{
  String, ◌≡◌, ◌≢◌, refl, sym, subst, ◌∙◌, ap, ◌↔◌, inl, inr, Option, none, some, List, [], ◌∷◌,
  Bool, true, false, arith, eq_iff, eq_refl, false≢true, Bool-cases,
}
use mcp_mux_2_0_dev.Json.{
  Json, arr, obj, Items, nil, cons, Fields, get, Occurs, first, later, get-put, name_of,
}
use mcp_mux_2_0_dev.Policy.{
  CapabilityPolicy, authorize, Section, sections, shows, project_items, project_list, store,
  project_sections,
}

-- an item stands in the list that a result holds under a key
abbrev pub Listed : String → Fields → Json → Type 0
Listed key result j = (items : Items) × (get key result ≡ some (arr items)) × Occurs j items

module _ (keep : Json → Bool) where
  project_items_kept :
      (k : Json) (items : Items)
      → keep k ≡ true
      → (project_items keep (cons k items)).0 ≡ cons k (project_items keep items).0
  unfolding project_items
  project_items_kept k items h = rw h

  project_items_dropped :
      (k : Json) (items : Items)
      → keep k ≡ false
      → (project_items keep (cons k items)).0 ≡ (project_items keep items).0
  unfolding project_items
  project_items_dropped k items h = rw h

  project_items_unchanged :
      (items : Items) → (project_items keep items).1 ≡ false → (project_items keep items).0 ≡ items
  unfolding project_items
  project_items_unchanged nil h = refl
  project_items_unchanged (cons k items) h = ground (arith, project_items_unchanged items)

module _ (keep : Json → Bool) (j : Json) where
  Occurs-cons :
      {k : Json} {items rest : Items}
      → keep k ≡ true
      → (Occurs j rest → Occurs j items × (keep j ≡ true))
      → Occurs j (cons k rest)
      → Occurs j (cons k items) × (keep j ≡ true)
  Occurs-cons kept ih (first e) = (first e, subst (λ x. keep x ≡ true) e kept)
  Occurs-cons kept ih (later o) = let (o', h) = ih o in (later o', h)

  project_items-Occurs :
      (items : Items) → Occurs j (project_items keep items).0 → Occurs j items × (keep j ≡ true)
  unfolding project_items
  project_items-Occurs nil h = (h, elim h [ ])
  project_items-Occurs (cons k items) h = elim (Bool-cases (keep k)) [
    | inl kept ↦
        Occurs-cons kept (project_items-Occurs items)
          (subst (Occurs j) (project_items_kept keep k items kept) h)
    | inr dropped ↦
        let (o, kept) =
          project_items-Occurs items
            (subst (Occurs j) (project_items_dropped keep k items dropped) h) in
        (later o, kept)
  ]

  Occurs-project_items :
      {items : Items} → Occurs j items → keep j ≡ true → Occurs j (project_items keep items).0
  Occurs-project_items (first {k} {items} e) kept =
      rw (project_items_kept keep k items (subst (λ x. keep x ≡ true) (sym e) kept)) (first e)
  Occurs-project_items (later {k} {items} o) kept =
      let rest = Occurs-project_items o kept in
      elim (Bool-cases (keep k)) [
        | inl shown ↦ rw (project_items_kept keep k items shown) (later rest)
        | inr dropped ↦ rw (project_items_dropped keep k items dropped) rest
      ]

module _ (keep : Json → Bool) (key : String) where
  -- what a projected list is found to be
  get-store_self :
      (result : Fields) (items : Items)
      → get key result ≡ some (arr items)
      → get key (store key result (project_items keep items)).0
        ≡ some (arr (project_items keep items).0)
  get-store_self result items found = ground (
    arith,
    eq_refl key,
    get-put key key (arr (project_items keep items).0) result,
    project_items_unchanged keep items,
  )

  get-store_ne :
      (k : String) (result : Fields) (projected : Items × Bool)
      → key ≢ k
      → get k (store key result projected).0 ≡ get k result
  get-store_ne k result projected ne =
      ground (arith, eq_iff key k, get-put key k (arr projected.0) result)

  get-project_list_ne :
      (k : String) (result : Fields) (o : Option Json)
      → key ≢ k
      → get k (project_list keep key result o).0 ≡ get k result
  unfolding project_list
  get-project_list_ne k result (some (arr items)) ne =
      get-store_ne k result (project_items keep items) ne
  get-project_list_ne k result none ne = refl
  get-project_list_ne k result (some _) ne = refl

  project_list-Listed :
      (result : Fields) (o : Option Json) (j : Json)
      → get key result ≡ o
      → Listed key (project_list keep key result o).0 j ↔ (Listed key result j × (keep j ≡ true))
  unfolding project_list
  project_list-Listed result (some (arr items)) j found = (read, write)
    where
      at_key :
          get key (store key result (project_items keep items)).0
          ≡ some (arr (project_items keep items).0)
      at_key = get-store_self result items found

      read :
          Listed key (store key result (project_items keep items)).0 j
          → Listed key result j × (keep j ≡ true)
      read (listed, e, o) =
          let same : listed ≡ (project_items keep items).0 = cc (e, at_key) in
          let (o', kept) = project_items-Occurs keep j items (subst (Occurs j) same o) in
          ((items, found, o'), kept)

      write :
          Listed key result j × (keep j ≡ true)
          → Listed key (store key result (project_items keep items)).0 j
      write ((listed, e, o), kept) =
          let same : listed ≡ items = cc (e, found) in
          (
            (project_items keep items).0,
            at_key,
            Occurs-project_items keep j (subst (Occurs j) same o) kept,
          )
  project_list-Listed result none j found =
      (λ l. absurd (cc (found, l.1)), λ l. absurd (cc (found, l.0.1)))
  project_list-Listed result (some _) j found =
      (λ l. absurd (cc (found, l.1)), λ l. absurd (cc (found, l.0.1)))

Listed-cong :
    (key : String) (r r' : Fields) {j : Json}
    → get key r ≡ get key r'
    → Listed key r j
    → Listed key r' j
Listed-cong key r r' same (items, e, o) = (items, sym same ∙ e, o)

-- a key that no section uses
abbrev pub Unsectioned : String → List Section → Type 0
Unsectioned k [] = Unit {0}
Unsectioned k (s ∷ rest) = (s.key ≢ k) × Unsectioned k rest

abbrev pub DistinctKeys : List Section → Type 0
DistinctKeys [] = Unit {0}
DistinctKeys (s ∷ rest) = Unsectioned s.key rest × DistinctKeys rest

-- a section of the table
pub data Among (s : Section) : List Section → Type 0 where
  here : {t : Section} {rest : List Section} → t ≡ s → Among s (t ∷ rest)
  below : {t : Section} {rest : List Section} → Among s rest → Among s (t ∷ rest)

Among-ne :
    (k : String) {s : Section} {rest : List Section} → Unsectioned k rest → Among s rest → s.key ≢ k
Among-ne k u (here e) same = u.0 (ap (λ (t : Section). t.key) e ∙ same)
Among-ne k u (below a) same = Among-ne k u.1 a same

module _ (p : CapabilityPolicy) (principal endpoint : String) where
  get-project_sections_ne :
      (k : String) (table : List Section) (result : Fields)
      → Unsectioned k table
      → get k (project_sections p principal endpoint table result).0 ≡ get k result
  unfolding project_sections
  get-project_sections_ne k [] result u = refl
  get-project_sections_ne k (s ∷ rest) result u =
      get-project_sections_ne k rest _ u.1
      ∙ get-project_list_ne (shows p principal endpoint s.method s.name_key) s.key k result
          (get s.key result) u.0

  abbrev first_list : Section → Fields → Fields
  first_list s result =
      (project_list (shows p principal endpoint s.method s.name_key) s.key result
        (get s.key result)).0

  project_sections-Listed :
      (table : List Section) (result : Fields) (s : Section) (j : Json)
      → DistinctKeys table
      → Among s table
      → Listed s.key (project_sections p principal endpoint table result).0 j
        ↔ (Listed s.key result j × (shows p principal endpoint s.method s.name_key j ≡ true))
  unfolding project_sections
  project_sections-Listed [] result s j d a = elim a [ ]
  project_sections-Listed (t ∷ rest) result s j d (here e) =
      let later_lists = get-project_sections_ne t.key rest (first_list t result) d.0 in
      let own =
        project_list-Listed (shows p principal endpoint t.method t.name_key) t.key result
          (get t.key result) j refl in
      subst
        (λ r.
          Listed r.key (project_sections p principal endpoint rest (first_list t result)).0 j
          ↔ (Listed r.key result j × (shows p principal endpoint r.method r.name_key j ≡ true)))
        e
        (
          λ l. own.0 (Listed-cong _ _ _ later_lists l),
          λ l. Listed-cong _ _ _ (sym later_lists) (own.1 l),
        )
  project_sections-Listed (t ∷ rest) result s j d (below a) =
      let other =
        get-project_list_ne (shows p principal endpoint t.method t.name_key) t.key s.key result
          (get t.key result) (λ e. Among-ne t.key d.0 a (sym e)) in
      let ih = project_sections-Listed rest (first_list t result) s j d.1 a in
      (
        λ l. let (l', shown) = ih.0 l in (Listed-cong _ _ _ other l', shown),
        λ l. ih.1 (Listed-cong _ _ _ (sym other) l.0, l.1),
      )

sections-DistinctKeys : DistinctKeys sections
sections-DistinctKeys = (
  (
    λ e. false≢true ((eq_iff "resources" "tools").1 e),
    (λ e. false≢true ((eq_iff "prompts" "tools").1 e), tt),
  ),
  ((λ e. false≢true ((eq_iff "prompts" "resources").1 e), tt), (tt, tt)),
)

module _ (p : CapabilityPolicy) (principal endpoint : String) where
  -- whether an item of a list may be shown: an object by what it names, anything else always
  abbrev pub MayShow : Section → Json → Type 0
  MayShow s (obj item) =
      (authorize p principal endpoint s.method (name_of (get s.name_key item))).allowed ≡ true
  MayShow s _ = Unit {0}

  shows-MayShow :
      (s : Section) (j : Json)
      → shows p principal endpoint s.method s.name_key j ≡ true
      → MayShow s j
  unfolding shows
  shows-MayShow s (obj item) h = h
  shows-MayShow s _ h = tt

  MayShow-shows :
      (s : Section) (j : Json)
      → MayShow s j
      → shows p principal endpoint s.method s.name_key j ≡ true
  unfolding shows
  MayShow-shows s (obj item) h = h
  MayShow-shows s _ h = refl

module _ (p : CapabilityPolicy) (principal endpoint : String) (result : Fields) where
  -- Under "tools", "resources" and "prompts" discovery shows exactly the items that were listed
  -- before and that are no objects, or are objects whose use by name the same policy would allow.
  pub discovery_iff :
      (s : Section) (j : Json)
      → Among s sections
      → Listed s.key (project_sections p principal endpoint sections result).0 j
        ↔ (Listed s.key result j × MayShow p principal endpoint s j)
  discovery_iff s j a =
      let (read, write) =
        project_sections-Listed p principal endpoint sections result s j sections-DistinctKeys a in
      (
        λ l. let (before, shown) = read l in (before, shows-MayShow p principal endpoint s j shown),
        λ l. write (l.0, MayShow-shows p principal endpoint s j l.1),
      )

  -- Everything else in the result stays as it is.
  pub discovery_keeps :
      (k : String)
      → k ≢ "tools"
      → k ≢ "resources"
      → k ≢ "prompts"
      → get k (project_sections p principal endpoint sections result).0 ≡ get k result
  discovery_keeps k h h' h'' =
      get-project_sections_ne p principal endpoint k sections result
        (λ e. h (sym e), (λ e. h' (sym e), (λ e. h'' (sym e), tt)))
