-- ===== src/Config/Headers.antt =====
-- config_loader.py: the headers and the path that the field validators let through.
use mcp_mux_2_0_dev.Base.{
  String, ◌≡◌, subst, ◌∙◌, inl, inr, Option, none, some, List, [], ◌∷◌, true, false, ◌&&◌, ◌||◌,
  not, ◌==◌, elem, All, arith, Bool-cases, Option-cases,
}
use mcp_mux_2_0_dev.Base.Dict.{Dict, insert}
use mcp_mux_2_0_dev.Base.Text.{casefold, has_char, is_empty, strip}
use mcp_mux_2_0_dev.Config.HeaderFields.{
  add_header, check_inbound, clean_headers, header_value, is_forbidden_inbound,
  is_forbidden_injected, normalize_headers, normalize_inbound_headers, or_no_headers, with_header,
}
use mcp_mux_2_0_dev.Config.Fields.{
  is_reserved_route, is_route_name, validate_header_name, validate_path,
}
use mcp_mux_2_0_dev.Config.Names.{keep_first, keep_one}
use mcp_mux_2_0_dev.Config.Rules.{accept-some, bind_some, map_some-some, never}

-- what every entry's check gives holds of all entries that are kept
module _ {ℓ} {P : String → Type ℓ} (check : String → Option String) (key : String → String)
    (holds : (raw name : String) → check raw ≡ some name → P name) where
  pub keep_first-All :
      (seen items : List String) {kept : List String}
      → keep_first check key seen items ≡ some kept
      → All P kept
  unfolding keep_first
  keep_first-All seen [] {kept} e = let same : [] ≡ kept = cc in subst (λ l. All P l) same tt
  keep_first-All seen (item ∷ items) {kept} e = elim (Option-cases (check item)) [
    | inl bad ↦ never (rw bad at e)
    | inr (name, good) ↦
        let e' : keep_one key seen (some name) (λ s. keep_first check key s items) ≡ some kept =
          rw good at e in
        elim (Bool-cases (elem (key name) seen)) [
          | inl old ↦ keep_first-All seen items (rw old at e')
          | inr new ↦
              let (rest, found, same) =
                map_some-some (λ l. name ∷ l) (keep_first check key (key name ∷ seen) items)
                  (rw new at e') in
              subst (λ l. All P l) same
                (holds item name good, keep_first-All (key name ∷ seen) items found)
        ]
  ]

pub check_inbound-allowed :
    (raw name : String)
    → check_inbound raw ≡ some name
    → is_forbidden_inbound (casefold name) ≡ false
check_inbound-allowed raw name e =
    let (n, found, passes) = bind_some (validate_header_name raw) _ e in
    let (ok, same) = accept-some (not (is_forbidden_inbound (casefold n))) passes in
    subst (λ s. is_forbidden_inbound (casefold s) ≡ false) same (ground arith)

pub normalize_inbound_headers-allowed :
    (names : List String) {kept : List String}
    → normalize_inbound_headers names ≡ some kept
    → All (λ name. is_forbidden_inbound (casefold name) ≡ false) kept
unfolding normalize_inbound_headers
normalize_inbound_headers-allowed names e =
    keep_first-All check_inbound casefold check_inbound-allowed [] names e

-- a header that a request to the upstream service may be given
abbrev pub IsInjectable : String × String → Type 0
IsInjectable (name, value) =
    (is_forbidden_injected (casefold name) ≡ false) × (is_empty value ≡ false)

insert-IsInjectable :
    (name value : String) (d : Dict String)
    → IsInjectable (name, value)
    → All IsInjectable d
    → All IsInjectable (insert name value d)
unfolding insert
insert-IsInjectable name value [] new h = (new, tt)
insert-IsInjectable name value ((k, w) ∷ d) new (old, rest) = elim (Bool-cases (k == name)) [
  | inl same ↦ rw same ((old.0, new.1), rest)
  | inr other ↦ rw other (old, insert-IsInjectable name value d new rest)
]

with_header-IsInjectable :
    (name : String) (value : Option String) (d : Dict String)
    → is_forbidden_injected (casefold name) ≡ false
    → All IsInjectable d
    → All IsInjectable (with_header name value d)
with_header-IsInjectable name none d ok h = h
with_header-IsInjectable name (some value) d ok h = elim (Bool-cases (is_empty value)) [
  | inl empty ↦ rw empty h
  | inr full ↦ rw full (insert-IsInjectable name value d (ok, full) h)
]

clean_headers-IsInjectable :
    (seen : List String) (cleaned entries : Dict String) {kept : Dict String}
    → All IsInjectable cleaned
    → clean_headers seen cleaned entries ≡ some kept
    → All IsInjectable kept
unfolding clean_headers
clean_headers-IsInjectable seen cleaned [] {kept} h e =
    let same : cleaned ≡ kept = cc in subst (λ d. All IsInjectable d) same h
clean_headers-IsInjectable seen cleaned ((key, raw) ∷ entries) {kept} h e =
    elim (Option-cases (validate_header_name key)) [
      | inl bad ↦ never (rw bad at e)
      | inr (name, good) ↦
          let e' : add_header seen raw (some name) cleaned (λ s d. clean_headers s d entries)
              ≡ some kept =
            rw good at e in
          elim (Bool-cases (elem (casefold name) seen || is_forbidden_injected (casefold name))) [
            | inl refused ↦ never (rw refused at e')
            | inr free ↦
                clean_headers-IsInjectable (casefold name ∷ seen)
                  (with_header name (header_value name (strip raw)) cleaned) entries
                  (with_header-IsInjectable name (header_value name (strip raw)) cleaned
                    (ground arith) h)
                  (rw free at e')
          ]
    ]

pub validate_path-routed :
    (value : String) {path : String}
    → validate_path value ≡ some path
    → (is_route_name path ≡ true) × (is_reserved_route (casefold path) ≡ false)
unfolding validate_path
validate_path-routed value {path} e =
    let (ok, same) =
      accept-some
        (not (is_empty (strip value))
          && not (is_reserved_route (casefold (strip value)))
          && not (has_char 47 (strip value))
          && is_route_name (strip value))
        e in
    subst (λ s. (is_route_name s ≡ true) × (is_reserved_route (casefold s) ≡ false)) same
      (ground arith, ground arith)

pub normalize_headers-IsInjectable :
    (entries : Option (Dict String)) {kept : Option (Dict String)} {headers : Dict String}
    → normalize_headers entries ≡ some kept
    → kept ≡ some headers
    → All IsInjectable headers
unfolding normalize_headers
normalize_headers-IsInjectable none {kept} {headers} e found =
    let gone : ◌≡◌ {A = Option (Dict String)} none (some headers) = cc in never gone
normalize_headers-IsInjectable (some entries) {kept} {headers} e found =
    let (d, cleaned, same) = map_some-some or_no_headers (clean_headers [] [] entries) e in
    no_headers d headers (same ∙ found) (clean_headers-IsInjectable [] [] entries tt cleaned)
  where
    no_headers :
        (d headers : Dict String)
        → or_no_headers d ≡ some headers
        → All IsInjectable d
        → All IsInjectable headers
    no_headers [] headers e h = never e
    no_headers (x ∷ d) headers e h =
        let same : (x ∷ d) ≡ headers = cc in subst (λ l. All IsInjectable l) same h
