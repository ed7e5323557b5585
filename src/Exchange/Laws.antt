-- ===== src/Exchange/Laws.antt =====
-- server.py: what the exchange with the upstream service counts, and what it lets through.
use mcp_mux_2_0_dev.Base.{
  ℕ, ◌<◌, String, ◌≡◌, refl, ◌⊎◌, inl, inr, Option, none, some, List, [], ◌∷◌, Bool, true, false,
  ◌&&◌, ◌||◌, not, leb, nat_beq, length, arith, is_some, Bool-cases, Option-cases, if◌then◌else◌,
}
use mcp_mux_2_0_dev.Base.Dict.{Dict}
use mcp_mux_2_0_dev.Base.Text.{casefold, contains, starts_with}
use mcp_mux_2_0_dev.Config.{Endpoint}
use mcp_mux_2_0_dev.Json.{Json}
use mcp_mux_2_0_dev.Observability.{GatewayMetrics, record_upstream_error}
use mcp_mux_2_0_dev.Policy.{project_json_text}
use mcp_mux_2_0_dev.Protocol.{find_folded}
use mcp_mux_2_0_dev.Redaction.{feed, redact_known_secrets}
use mcp_mux_2_0_dev.Redaction.Cutoff.{is_some-feed}
use mcp_mux_2_0_dev.Server.{is_stale_json_body}
use mcp_mux_2_0_dev.Server.Transit.{safe_response_headers}
use mcp_mux_2_0_dev.Exchange.{
  BodyRead, Exchanged, Fetched, Proxy, Reply, UpstreamResponse, after_retry, arrived, body_reply,
  broken, connected, count_below_500, decoded, error_reply, event_reply, is_active, is_blank,
  json_exchange, malformed, or_empty, parsed, project_reply, proxy_request, respond,
  retry_upstream_once, stream_reply, timed_out, unavailable, with_no_store, event_headers,
}
use mcp_mux_2_0_dev.Exchange.Streams.{
  Fault, after_fault, counted, or_stuck, redact_texts, sse_content, uncounted,
}

-- a reply that passes on a response below 500
abbrev pub Succeeds : Reply → Type 0
Succeeds (error_reply status text) = ⊥
Succeeds (body_reply status headers content) = status < 500
Succeeds (event_reply status headers) = status < 500
Succeeds (stream_reply status headers redacts) = status < 500

-- a text of a body that is said to be JSON: it is JSON, or nothing with status 202 or 204
abbrev is_readable : Proxy → ℕ → List ℕ → Option String → Bool
is_readable p status body none = false
is_readable p status body (some text) =
    (nat_beq (length body) 0 && (nat_beq status 202 || nat_beq status 204))
    || is_some (p.codec.loads_strict text)

abbrev is_usable : Proxy → ℕ → BodyRead → Bool
is_usable p status timed_out = false
is_usable p status broken = false
is_usable p status (arrived body) = is_readable p status body (p.codec.decode_utf8 body)

-- The exchange is an upstream error: there is no connection, the status is from 500 on, or the body
-- is said to be JSON and is not usable.
abbrev pub is_error : Proxy → Fetched → Bool
is_error p unavailable = true
is_error p (connected r) =
    leb 500 r.status_code
    || (contains (casefold (or_empty (find_folded "content-type" r.headers))) "application/json"
        && not (is_usable p r.status_code r.body))

-- The exchange was counted as an error, once, and it was one; or it was not, and it was none.
abbrev pub Accounts : String → GatewayMetrics → Bool → Exchanged → Type 0
Accounts path m failed e =
    ((failed ≡ true) × (e.metrics ≡ record_upstream_error path m))
    ⊎ ((failed ≡ false) × (e.metrics ≡ m) × Succeeds e.reply)

module _ (p : Proxy) (r : UpstreamResponse) (m : GatewayMetrics) where
  -- the counters when the response's status is known
  abbrev started : GatewayMetrics
  started = if leb 500 r.status_code then record_upstream_error p.path_prefix m else m

  count_once :
      count_below_500 r.status_code p.path_prefix started ≡ record_upstream_error p.path_prefix m
  count_once = ground arith

  passed :
      (reply : Reply)
      → (r.status_code < 500 → Succeeds reply)
      → (exited : Bool)
      → Accounts p.path_prefix m
          (leb 500 r.status_code || false)
          (record { reply = reply; metrics = started; exited = exited })
  passed reply succeeds exited = elim (Bool-cases (leb 500 r.status_code)) [
    | inl high ↦ rw high (inl (refl, refl))
    | inr low ↦ rw low (inr (refl, refl, succeeds (ground arith)))
  ]

  -- an error whatever the status is
  failed_lem : (leb 500 r.status_code || true) ≡ true
  failed_lem = ground arith

  metrics-malformed :
      (body : List ℕ) → (malformed p r body started).metrics ≡ record_upstream_error p.path_prefix m
  metrics-malformed body = elim (Bool-cases (is_stale_json_body (length body) r.headers)) [
    | inl stale ↦ rw stale (retries (retry_upstream_once p.codec p.retry))
    | inr whole ↦ rw whole count_once
  ]
    where
      retries :
          (text : Option String)
          → (after_retry p r text (count_below_500 r.status_code p.path_prefix started)).metrics
            ≡ record_upstream_error p.path_prefix m
      retries none = count_once
      retries (some text) = count_once

  is_blank-length : (body : List ℕ) → nat_beq (length body) 0 ≡ is_blank p r body
  is_blank-length [] = refl
  is_blank-length (x ∷ xs) = ground arith

  decoded-Accounts :
      (body : List ℕ) (text : Option String)
      → Accounts p.path_prefix m
          (leb 500 r.status_code || not (is_readable p r.status_code body text))
          (decoded p r body text started)
  decoded-Accounts body none = inl (failed_lem, metrics-malformed body)
  decoded-Accounts body (some text) =
      rw (is_blank-length body)
        (elim (Bool-cases
          (is_blank p r body && (nat_beq r.status_code 202 || nat_beq r.status_code 204))) [
            | inl empty ↦ rw empty (
                passed
                  (body_reply r.status_code (safe_response_headers p.secrets r.headers true false)
                    "")
                  (λ low. low) true)
            | inr full ↦ rw full (checks (p.codec.loads_strict text))
          ])
    where
      checks :
          (j : Option Json)
          → Accounts p.path_prefix m
              (leb 500 r.status_code || not (is_some j))
              (parsed p r body text j started)
      checks none = inl (failed_lem, metrics-malformed body)
      checks (some j) = passed (project_reply p r text) (λ low. low) true

  json-Accounts :
      (read : BodyRead)
      → Accounts p.path_prefix m
          (leb 500 r.status_code || not (is_usable p r.status_code read))
          (json_exchange p r read started)
  json-Accounts timed_out = inl (failed_lem, count_once)
  json-Accounts broken = inl (failed_lem, count_once)
  json-Accounts (arrived body) = decoded-Accounts body (p.codec.decode_utf8 body)

  respond-Accounts : Accounts p.path_prefix m (is_error p (connected r)) (respond p r m)
  unfolding respond
  respond-Accounts =
      let content_type = casefold (or_empty (find_folded "content-type" r.headers)) in
      let redacts = starts_with content_type "text/" && is_active p.secrets in
      elim (Bool-cases (contains content_type "application/json")) [
        | inl json ↦ rw json (json-Accounts r.body)
        | inr other ↦ rw other (elim (Bool-cases (contains content_type "event-stream")) [
          | inl events ↦ rw events (
              passed (event_reply r.status_code (event_headers p.secrets r.headers)) (λ low. low)
                false)
          | inr plain ↦ rw plain (
              passed
                (stream_reply r.status_code
                  (with_no_store redacts (safe_response_headers p.secrets r.headers false redacts))
                  redacts)
                (λ low. low) false)
        ])
      ]

-- One exchange with an upstream service counts exactly one upstream error if the service could not
-- be reached, answered with a status from 500 on, or gave a body that is said to be JSON and was not
-- read to its end or is neither JSON nor an empty body of status 202 or 204, even if a retry was
-- then usable. Otherwise it counts none, and a response below 500 is passed on.
pub proxy_request-Accounts :
    (p : Proxy) (f : Fetched) (m : GatewayMetrics)
    → Accounts p.path_prefix m (is_error p f) (proxy_request p f m)
unfolding proxy_request
proxy_request-Accounts p unavailable m = inl (refl, refl)
proxy_request-Accounts p (connected r) m = respond-Accounts p r m

-- What a client gets of a response that says it is JSON: an error, or an empty body with status 202
-- or 204, or the projection of a redacted text that is JSON.
pub data IsScreened (p : Proxy) : Reply → Type 0 where
  error : (status : ℕ) (text : String) → IsScreened p (error_reply status text)
  nothing :
      (status : ℕ) (headers : Dict String)
      → (status ≡ 202) ⊎ (status ≡ 204)
      → IsScreened p (body_reply status headers "")
  json :
      (status : ℕ) (headers : Dict String) (text : String)
      → is_some (p.codec.loads_strict text) ≡ true
      → IsScreened p (
          body_reply status headers
            (project_json_text p.codec p.policy p.principal p.path_prefix
              (redact_known_secrets p.secrets text)).0)

module _ (p : Proxy) (r : UpstreamResponse) where
  retry-IsJson :
      (retry : Option (ℕ × String)) {text : String}
      → retry_upstream_once p.codec retry ≡ some text
      → is_some (p.codec.loads_strict text) ≡ true
  unfolding retry_upstream_once
  retry-IsJson none e = cc
  retry-IsJson (some (status, text)) e = ground arith

  malformed-IsScreened :
      (body : List ℕ) (m : GatewayMetrics) → IsScreened p (malformed p r body m).reply
  malformed-IsScreened body m = elim (Bool-cases (is_stale_json_body (length body) r.headers)) [
    | inl stale ↦ rw stale (retries (retry_upstream_once p.codec p.retry) refl)
    | inr whole ↦ rw whole (error 502 "Upstream returned malformed JSON")
  ]
    where
      retries :
          (text : Option String)
          → retry_upstream_once p.codec p.retry ≡ text
          → IsScreened p
              (after_retry p r text (count_below_500 r.status_code p.path_prefix m)).reply
      retries none e = error 502 "Upstream response read failed"
      retries (some text) e = json r.status_code _ text (retry-IsJson p.retry e)

  -- Nothing reaches the client from a response that says it is JSON but an error, an empty 202 or
  -- 204, or a text that is JSON, with the known secrets replaced and the lists projected by the
  -- policy. This holds for the answer to a retry too.
  pub json_exchange-IsScreened :
      (read : BodyRead) (m : GatewayMetrics) → IsScreened p (json_exchange p r read m).reply
  json_exchange-IsScreened timed_out m = error 504 "Upstream response timed out"
  json_exchange-IsScreened broken m = error 502 "Upstream response read failed"
  json_exchange-IsScreened (arrived body) m = decodes (p.codec.decode_utf8 body)
    where
      checks :
          (text : String) (j : Option Json)
          → p.codec.loads_strict text ≡ j
          → IsScreened p (parsed p r body text j m).reply
      checks text none e = malformed-IsScreened body m
      checks text (some j) e = json r.status_code _ text (rw e refl)

      decodes : (text : Option String) → IsScreened p (decoded p r body text m).reply
      decodes none = malformed-IsScreened body m
      decodes (some text) =
          elim (Bool-cases
            (is_blank p r body && (nat_beq r.status_code 202 || nat_beq r.status_code 204))) [
              | inl empty ↦ rw empty (
                  nothing r.status_code (safe_response_headers p.secrets r.headers true false)
                    (ground arith))
              | inr full ↦ rw full (checks text (p.codec.loads_strict text) refl)
            ]

is_some-or_stuck :
    (out : String) (outs : Option (List String))
    → is_some outs ≡ true
    → is_some (or_stuck out outs) ≡ true
is_some-or_stuck out none h = h
is_some-or_stuck out (some outs) h = refl

-- The redaction of a streamed text never gets stuck, whatever the secrets and the chunks are.
pub is_some-redact_texts :
    (secrets : List String) (complete : Bool) (carry : String) (texts : List String)
    → is_some (redact_texts secrets complete carry texts) ≡ true
unfolding redact_texts
is_some-redact_texts secrets complete carry [] = refl
is_some-redact_texts secrets complete carry (text ∷ texts) =
    elim (Option-cases (feed secrets carry text)) [
      | inl stuck ↦ ground (arith, is_some-feed secrets carry text)
      | inr ((out, carry'), fed) ↦
          rw (fed, is_some)
            (is_some-or_stuck out (redact_texts secrets complete carry' texts)
              (is_some-redact_texts secrets complete carry' texts))
    ]

module _ (p : Proxy) (r : UpstreamResponse) (m : GatewayMetrics) where
  -- a response that says it is JSON has been read to its end
  exited-json_exchange : (read : BodyRead) → (json_exchange p r read m).exited ≡ true
  exited-json_exchange timed_out = refl
  exited-json_exchange broken = refl
  exited-json_exchange (arrived body) = decodes (p.codec.decode_utf8 body)
    where
      retries :
          (text : Option String) (m' : GatewayMetrics) → (after_retry p r text m').exited ≡ true
      retries none m' = refl
      retries (some text) m' = refl

      damaged : (malformed p r body m).exited ≡ true
      damaged = elim (Bool-cases (is_stale_json_body (length body) r.headers)) [
        | inl stale ↦ rw stale (retries (retry_upstream_once p.codec p.retry) _)
        | inr whole ↦ rw whole refl
      ]

      checks : (text : String) (j : Option Json) → (parsed p r body text j m).exited ≡ true
      checks text none = damaged
      checks text (some j) = refl

      decodes : (text : Option String) → (decoded p r body text m).exited ≡ true
      decodes none = damaged
      decodes (some text) =
          elim (Bool-cases
            (is_blank p r body && (nat_beq r.status_code 202 || nat_beq r.status_code 204))) [
              | inl empty ↦ rw empty refl
              | inr full ↦ rw full (checks text (p.codec.loads_strict text))
            ]

-- the stream is cut off by an exception that is counted
abbrev pub is_counted : Option Fault → Bool
is_counted none = false
is_counted (some (counted text)) = true
is_counted (some (uncounted text)) = false

module _ (p : Proxy) (r : UpstreamResponse) (m : GatewayMetrics) where
  -- what is left to be read has been counted by its status alone
  metrics-respond : (respond p r m).exited ≡ false → (respond p r m).metrics ≡ started p r m
  unfolding respond
  metrics-respond left =
      let content_type = casefold (or_empty (find_folded "content-type" r.headers)) in
      elim (Bool-cases (contains content_type "application/json")) [
        | inl reads ↦ ground (arith, exited-json_exchange p r (started p r m) r.body)
        | inr other ↦ rw other (elim (Bool-cases (contains content_type "event-stream")) [
          | inl events ↦ rw events refl
          | inr plain ↦ rw plain refl
        ])
      ]

  fault_once :
      (fault : Option Fault)
      → after_fault r.status_code p.path_prefix fault (started p r m) ≡ (
          if leb 500 r.status_code || is_counted fault
          then record_upstream_error p.path_prefix m
          else m)
  fault_once none = ground arith
  fault_once (some (counted text)) = ground (arith, count_once p r m)
  fault_once (some (uncounted text)) = ground arith

  -- A streamed response counts exactly one upstream error over its start and its whole stream if its
  -- status is from 500 on, or if one of the exceptions that the generator counts cuts it off, or
  -- both; and none otherwise.
  pub sse_content-once :
      (endpoints : ℕ → Endpoint) (lines : List String) (fault : Option Fault)
      → (proxy_request p (connected r) m).exited ≡ false
      → (sse_content p.codec p.secrets p.principal p.path_prefix endpoints r.status_code lines fault
          (proxy_request p (connected r) m).metrics).metrics
        ≡ (if leb 500 r.status_code || is_counted fault
            then record_upstream_error p.path_prefix m
            else m)
  unfolding sse_content proxy_request
  sse_content-once endpoints lines fault left = rw (metrics-respond left) (fault_once fault)
