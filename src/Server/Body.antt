-- ===== src/Server/Body.antt =====
-- server.py: the size limit on request bodies, and what an accepted body is.
use mcp_mux_2_0_dev.Base.{
  ℕ, ◌+◌, ◌≤◌, ◌≡◌, refl, sym, ap, subst, ◌∙◌, leb→le, none, some, List, [], ◌∷◌, ◌++◌, Bool, true,
  false, leb, ltb, length, arith, append_assoc, append-nil, length-append, Bool-cases, Option-cases,
  inl, inr, if◌then◌else◌,
}
use mcp_mux_2_0_dev.Json.{Codec}
use mcp_mux_2_0_dev.Protocol.{
  Headers, find_folded, ParsedRequest, ProtocolEra, Result, ok, err, parse_jsonrpc_request,
}
use mcp_mux_2_0_dev.Protocol.Validate.{validate_protocol_request}
use mcp_mux_2_0_dev.Server.{
  is_json_content_type, BodyRefusal, not_json_type, too_large, PostBody, refused, accepted,
  read_chunks, with_era, with_request, with_body, check_content_length, read_post_body,
}

-- the chunks, one after the other
unfoldable pub concat : List (List ℕ) → List ℕ
concat [] = []
concat (chunk ∷ chunks) = chunk ++ concat chunks

read_chunks-concat :
    (limit : ℕ) (body : List ℕ) (chunks : List (List ℕ))
    → length body ≤ limit
    → read_chunks limit body chunks ≡ (
        if leb (length body + length (concat chunks)) limit
        then some (body ++ concat chunks)
        else none)
unfolding read_chunks concat
read_chunks-concat limit body [] h = ground (arith, append-nil body)
read_chunks-concat limit body (chunk ∷ chunks) h =
    let joined = length-append body chunk in
    elim (Bool-cases (ltb limit (length body + length chunk))) [
      | inl e ↦ rw e (ground (arith, length-append chunk (concat chunks)))
      | inr e ↦ rw e (
          read_chunks-concat limit (body ++ chunk) chunks (ground arith)
          ∙ ground
              (arith, length-append chunk (concat chunks), append_assoc body chunk (concat chunks)))
    ]

read_chunks-all :
    (limit : ℕ) (chunks : List (List ℕ))
    → read_chunks limit [] chunks
      ≡ (if leb (length (concat chunks)) limit then some (concat chunks) else none)
read_chunks-all limit chunks = ground (arith, read_chunks-concat limit [] chunks (omega arith))

module _ (codec : Codec) (limit : ℕ) (headers : Headers) (allow_headerless_legacy : Bool) where
  -- what is made of a body that is not too large
  abbrev pub judged : List ℕ → PostBody
  judged body =
      with_request codec headers allow_headerless_legacy body (parse_jsonrpc_request codec body)

  with_body-leb :
      (body : List ℕ)
      → with_body codec headers allow_headerless_legacy limit
          (if leb (length body) limit then some body else none)
        ≡ (if leb (length body) limit then judged body else refused too_large)
  with_body-leb body = elim (Bool-cases (leb (length body) limit)) [
    | inl e ↦ rw e (ground arith)
    | inr e ↦ rw e refl
  ]

  -- A JSON body whose Content-Length, if it has one, is in order is judged as a whole, however the
  -- stream cuts it into chunks: it is refused as too large exactly when its bytes are more than the
  -- limit, and is otherwise parsed and validated.
  pub read_post_body_lem :
      (chunks : List (List ℕ))
      → is_json_content_type (find_folded "content-type" headers) ≡ true
      → check_content_length limit (find_folded "content-length" headers) ≡ none
      → read_post_body codec limit headers allow_headerless_legacy chunks
        ≡ (if leb (length (concat chunks)) limit then judged (concat chunks) else refused too_large)
  unfolding read_post_body
  read_post_body_lem chunks json declared =
      rw (json, declared, read_chunks-all limit chunks) (with_body-leb (concat chunks))

  refused-absurd :
      {A : Type 0} {why : BodyRefusal} {body : List ℕ} {parsed : ParsedRequest} {era : ProtocolEra}
      → refused why ≡ accepted body parsed era
      → A
  refused-absurd h = ground arith

  with_era-accepted :
      (bytes body : List ℕ) (request parsed : ParsedRequest) (era : ProtocolEra)
      (result : Result ProtocolEra)
      → with_era bytes request result ≡ accepted body parsed era
      → (bytes ≡ body) × (request ≡ parsed) × (result ≡ ok era)
  with_era-accepted bytes body request parsed era (err e) h = refused-absurd h
  with_era-accepted bytes body request parsed era (ok found) h = ground arith

  with_request-accepted :
      (bytes body : List ℕ) (parsed : ParsedRequest) (era : ProtocolEra)
      (result : Result ParsedRequest)
      → with_request codec headers allow_headerless_legacy bytes result ≡ accepted body parsed era
      → (bytes ≡ body)
        × (result ≡ ok parsed)
        × (validate_protocol_request codec parsed headers allow_headerless_legacy ≡ ok era)
  with_request-accepted bytes body parsed era (err e) h = refused-absurd h
  with_request-accepted bytes body parsed era (ok request) h =
      let (same_body, same_request, valid) = with_era-accepted bytes body request parsed era _ h in
      (
        same_body,
        ap ok same_request,
        ap (λ r. validate_protocol_request codec r headers allow_headerless_legacy)
              (sym same_request)
            ∙ valid,
      )

  bounded-accepted :
      (bytes body : List ℕ) (parsed : ParsedRequest) (era : ProtocolEra)
      → (if leb (length bytes) limit then judged bytes else refused too_large)
        ≡ accepted body parsed era
      → (body ≡ bytes)
        × (length body ≤ limit)
        × (parse_jsonrpc_request codec body ≡ ok parsed)
        × (validate_protocol_request codec parsed headers allow_headerless_legacy ≡ ok era)
  bounded-accepted bytes body parsed era h = elim (Bool-cases (leb (length bytes) limit)) [
    | inl e ↦
        let (same, parses, valid) =
          with_request-accepted bytes body parsed era (parse_jsonrpc_request codec bytes)
            (rw e at h) in
        (
          sym same,
          subst (λ b. length b ≤ limit) same (leb→le (length bytes) limit e),
          subst (λ b. parse_jsonrpc_request codec b ≡ ok parsed) same parses,
          valid,
        )
    | inr e ↦ refused-absurd (rw e at h)
  ]

  read_post_body_json :
      (chunks : List (List ℕ))
      → is_json_content_type (find_folded "content-type" headers) ≡ false
      → read_post_body codec limit headers allow_headerless_legacy chunks ≡ refused not_json_type
  unfolding read_post_body
  read_post_body_json chunks e = rw e refl

  read_post_body_declared :
      (chunks : List (List ℕ)) {why : BodyRefusal}
      → is_json_content_type (find_folded "content-type" headers) ≡ true
      → check_content_length limit (find_folded "content-length" headers) ≡ some why
      → read_post_body codec limit headers allow_headerless_legacy chunks ≡ refused why
  unfolding read_post_body
  read_post_body_declared chunks json e = rw (json, e) refl

  -- An accepted request has the JSON media type, its body is the whole of what was streamed and at
  -- most the limit, and is what the parser and the validation accepted.
  pub read_post_body-accepted :
      (chunks : List (List ℕ)) (body : List ℕ) (parsed : ParsedRequest) (era : ProtocolEra)
      → read_post_body codec limit headers allow_headerless_legacy chunks ≡ accepted body parsed era
      → (is_json_content_type (find_folded "content-type" headers) ≡ true)
        × (body ≡ concat chunks)
        × (length body ≤ limit)
        × (parse_jsonrpc_request codec body ≡ ok parsed)
        × (validate_protocol_request codec parsed headers allow_headerless_legacy ≡ ok era)
  read_post_body-accepted chunks body parsed era h =
      elim (Bool-cases (is_json_content_type (find_folded "content-type" headers))) [
        | inr e ↦ refused-absurd (sym (read_post_body_json chunks e) ∙ h)
        | inl json ↦
            elim (Option-cases
              (check_content_length limit (find_folded "content-length" headers))) [
                | inr (why, e) ↦ refused-absurd (sym (read_post_body_declared chunks json e) ∙ h)
                | inl declared ↦
                    let (same, small, parses, valid) =
                      bounded-accepted (concat chunks) body parsed era
                        (sym (read_post_body_lem chunks json declared) ∙ h) in
                    (json, same, small, parses, valid)
              ]
      ]
