-- ===== src/Config/Distinct.antt =====
-- config_loader.py, `validate_ports_and_paths`: the endpoints that it accepts.
use mcp_mux_2_0_dev.Base.{
  ℕ, String, ◌≡◌, ◌≢◌, inl, inr, some, List, [], ◌∷◌, true, false, nat_beq_iff, elem, any, All,
  is_some, arith, eq_iff, Option-cases,
}
use mcp_mux_2_0_dev.Config.{
  Endpoint, EndpointBase, ManagedFields, base, managed_endpoint, remote_endpoint,
}
use mcp_mux_2_0_dev.Config.Models.{distinct_endpoints, has_port}

-- no two endpoints have one path
abbrev pub PathApart : Endpoint → Endpoint → Type 0
PathApart e f = (base f).path ≢ (base e).path

-- a managed endpoint has a port, and another has another
abbrev pub HasPort : Endpoint → Type 0
HasPort (remote_endpoint b) = Unit
HasPort (managed_endpoint b m) = is_some m.readiness.port ≡ true

abbrev pub PortApart : Endpoint → Endpoint → Type 0
PortApart (managed_endpoint b m) (managed_endpoint c n) = n.readiness.port ≢ m.readiness.port
PortApart _ _ = Unit

abbrev pub AreDistinct : List Endpoint → Type 0
AreDistinct [] = Unit
AreDistinct (e ∷ es) = HasPort e × All (PathApart e) es × All (PortApart e) es × AreDistinct es

-- the path was not seen before
abbrev NewPath : List String → Endpoint → Type 0
NewPath paths e = elem (base e).path paths ≡ false

abbrev NewPort : List ℕ → Endpoint → Type 0
NewPort ports (remote_endpoint b) = Unit
NewPort ports (managed_endpoint b m) =
    (p : ℕ) → m.readiness.port ≡ some p → has_port p ports ≡ false

remote_lem :
    (ports : List ℕ) (paths : List String) (b : EndpointBase) (es : List Endpoint)
    → distinct_endpoints ports paths (remote_endpoint b ∷ es) ≡ true
    → (elem b.path paths ≡ false) × (distinct_endpoints ports (b.path ∷ paths) es ≡ true)
unfolding distinct_endpoints
remote_lem ports paths b es h = ground arith

managed_lem :
    (ports : List ℕ) (paths : List String) (b : EndpointBase) (m : ManagedFields)
    (es : List Endpoint)
    → distinct_endpoints ports paths (managed_endpoint b m ∷ es) ≡ true
    → (elem b.path paths ≡ false)
      × ((p : ℕ) × (m.readiness.port ≡ some p)
          × (has_port p ports ≡ false)
          × (distinct_endpoints (p ∷ ports) (b.path ∷ paths) es ≡ true))
unfolding distinct_endpoints
managed_lem ports paths b m es h = elim (Option-cases m.readiness.port) [
  | inl missing ↦ ground arith
  | inr (p, found) ↦ (ground arith, (p, found, ground arith, ground arith))
]

NewPath-weaken :
    (path : String) (paths : List String) (es : List Endpoint)
    → All (NewPath (path ∷ paths)) es
    → All (NewPath paths) es × All (λ f. (base f).path ≢ path) es
unfolding elem
NewPath-weaken path paths [] h = (tt, tt)
NewPath-weaken path paths (e ∷ es) (new, rest) =
    let (seen, apart) = NewPath-weaken path paths es rest in
    ((ground arith, seen), (λ same_path. ground (arith, eq_iff (base e).path path), apart))

NewPort-weaken :
    (port : ℕ) (ports : List ℕ) (es : List Endpoint)
    → All (NewPort (port ∷ ports)) es
    → All (NewPort ports) es × All (NewPort (port ∷ [])) es
unfolding any
NewPort-weaken port ports [] h = (tt, tt)
NewPort-weaken port ports (remote_endpoint b ∷ es) (new, rest) =
    let (seen, apart) = NewPort-weaken port ports es rest in ((tt, seen), (tt, apart))
NewPort-weaken port ports (managed_endpoint b m ∷ es) (new, rest) =
    let (seen, apart) = NewPort-weaken port ports es rest in
    (
      (λ p found. ground (arith, new p found), seen),
      (λ p found. ground (arith, new p found), apart),
    )

distinct-New :
    (ports : List ℕ) (paths : List String) (es : List Endpoint)
    → distinct_endpoints ports paths es ≡ true
    → All (NewPath paths) es × All (NewPort ports) es
distinct-New ports paths [] h = (tt, tt)
distinct-New ports paths (remote_endpoint b ∷ es) h =
    let (new, later) = remote_lem ports paths b es h in
    let (path_new, port_new) = distinct-New ports (b.path ∷ paths) es later in
    ((new, (NewPath-weaken b.path paths es path_new).0), (tt, port_new))
distinct-New ports paths (managed_endpoint b m ∷ es) h =
    let (new, (p, found, free, later)) = managed_lem ports paths b m es h in
    let (path_new, port_new) = distinct-New (p ∷ ports) (b.path ∷ paths) es later in
    (
      (new, (NewPath-weaken b.path paths es path_new).0),
      (λ q e. ground arith, (NewPort-weaken p ports es port_new).0),
    )

no_ports : (b : EndpointBase) (es : List Endpoint) → All (PortApart (remote_endpoint b)) es
no_ports b [] = tt
no_ports b (remote_endpoint c ∷ es) = (tt, no_ports b es)
no_ports b (managed_endpoint c n ∷ es) = (tt, no_ports b es)

other_ports :
    (b : EndpointBase) (m : ManagedFields) (p : ℕ) (es : List Endpoint)
    → m.readiness.port ≡ some p
    → All (NewPort (p ∷ [])) es
    → All (PortApart (managed_endpoint b m)) es
unfolding any
other_ports b m p [] found h = tt
other_ports b m p (remote_endpoint c ∷ es) found (new, rest) = (tt, other_ports b m p es found rest)
other_ports b m p (managed_endpoint c n ∷ es) found (new, rest) =
    (λ e. ground (arith, new p, nat_beq_iff p p), other_ports b m p es found rest)

-- The loop over the endpoints accepts no two with one path, no managed one without a port, and no two
-- managed ones with one port.
pub distinct-AreDistinct :
    (ports : List ℕ) (paths : List String) (es : List Endpoint)
    → distinct_endpoints ports paths es ≡ true
    → AreDistinct es
distinct-AreDistinct ports paths [] h = tt
distinct-AreDistinct ports paths (remote_endpoint b ∷ es) h =
    let (new, later) = remote_lem ports paths b es h in
    let (path_new, port_new) = distinct-New ports (b.path ∷ paths) es later in
    (
      tt,
      (NewPath-weaken b.path paths es path_new).1,
      no_ports b es,
      distinct-AreDistinct ports (b.path ∷ paths) es later,
    )
distinct-AreDistinct ports paths (managed_endpoint b m ∷ es) h =
    let (new, (p, found, free, later)) = managed_lem ports paths b m es h in
    let (path_new, port_new) = distinct-New (p ∷ ports) (b.path ∷ paths) es later in
    (
      ground arith,
      (NewPath-weaken b.path paths es path_new).1,
      other_ports b m p es found (NewPort-weaken p ports es port_new).1,
      distinct-AreDistinct (p ∷ ports) (b.path ∷ paths) es later,
    )
