-- ===== src/Observability/Record.antt =====
-- observability.py: what the record of a request says about its response.
use mcp_mux_2_0_dev.Base.{
  ℕ, ◌+◌, String, ◌≡◌, refl, ◌⊎◌, inl, some, List, [], ◌∷◌, true, false, arith, ◌==◌, eq_iff, not,
  ◌&&◌, if◌then◌else◌,
}
use mcp_mux_2_0_dev.Base.Dict.{Dict, lookup, lookup-insert}
use mcp_mux_2_0_dev.Observability.{
  count_of, count_at, count_up, GatewayMetrics, record_stream_cancellation, snapshot, Observed,
  unobserved, mark_downstream_disconnect, Event, receives_disconnect, receives_other, sends_start,
  sends_body, raises_disconnect, raises_cancelled, observe, observe_all, conclude,
}

-- the bytes of the bodies that went through
unfoldable pub sent_bytes : List Event → ℕ
sent_bytes [] = 0
sent_bytes (sends_body size more true ∷ es) = size + sent_bytes es
sent_bytes (_ ∷ es) = sent_bytes es

observe-bytes :
    (e : Event) (o : Observed)
    → (observe e o).bytes_streamed ≡ o.bytes_streamed + sent_bytes (e ∷ [])
unfolding observe mark_downstream_disconnect sent_bytes
observe-bytes e o = ground arith

-- A disconnect is on record only for a cancelled response that had started.
pub record IsConsistent (o : Observed) : Type 0 where
  pub cancelled_first : (o.downstream_disconnected ≡ false) ⊎ (o.cancelled ≡ true)
  pub started_first : (o.downstream_disconnected ≡ false) ⊎ (o.response_started ≡ true)

observe-IsConsistent : (e : Event) (o : Observed) → IsConsistent o → IsConsistent (observe e o)
unfolding observe mark_downstream_disconnect
observe-IsConsistent e o h = ground arith

observe_all-from :
    (es : List Event) (o : Observed)
    → (observe_all es o).bytes_streamed ≡ o.bytes_streamed + sent_bytes es
unfolding observe_all observe mark_downstream_disconnect sent_bytes
observe_all-from [] o = omega arith
observe_all-from (receives_disconnect ∷ es) o =
    ground (arith, observe_all-from es (mark_downstream_disconnect o))
observe_all-from (receives_other ∷ es) o = observe_all-from es o
observe_all-from (sends_start status true ∷ es) o =
    observe_all-from es (observe (sends_start status true) o)
observe_all-from (sends_start status false ∷ es) o =
    ground (arith, observe_all-from es (observe (sends_start status false) o))
observe_all-from (sends_body size more true ∷ es) o =
    omega (arith, observe_all-from es (observe (sends_body size more true) o))
observe_all-from (sends_body size more false ∷ es) o =
    ground (arith, observe_all-from es (observe (sends_body size more false) o))
observe_all-from (raises_disconnect ∷ es) o =
    ground (arith, observe_all-from es (mark_downstream_disconnect o))
observe_all-from (raises_cancelled ∷ es) o = observe_all-from es (observe raises_cancelled o)

observe_all-IsConsistent :
    (es : List Event) (o : Observed) → IsConsistent o → IsConsistent (observe_all es o)
unfolding observe_all
observe_all-IsConsistent [] o h = h
observe_all-IsConsistent (e ∷ es) o h =
    observe_all-IsConsistent es (observe e o) (observe-IsConsistent e o h)

-- Whatever passes the middleware, the record counts exactly the bytes of the bodies that were sent
-- through, and says that the caller disconnected only of a response that had started and was
-- cancelled.
pub observe_all-record :
    (es : List Event)
    → ((observe_all es unobserved).bytes_streamed ≡ sent_bytes es)
      × IsConsistent (observe_all es unobserved)
observe_all-record es = (
  ground (arith, observe_all-from es unobserved),
  observe_all-IsConsistent es unobserved
      (record { cancelled_first = inl refl; started_first = inl refl }),
)

count_at-count_up :
    (endpoint other : String) (counts : Dict ℕ)
    → count_at other (count_up endpoint counts)
      ≡ count_at other counts + (if endpoint == other then 1 else 0)
unfolding count_at count_up
count_at-count_up endpoint other counts = ground (
  arith,
  eq_iff endpoint other,
  lookup-insert endpoint other (count_of (lookup endpoint counts) + 1) counts,
)

-- The end of a request adds one to the stream cancellations of its endpoint if the caller
-- disconnected, and changes no other count of any endpoint.
pub snapshot-conclude :
    (endpoint other : String) (o : Observed) (m : GatewayMetrics)
    → snapshot other (conclude (some endpoint) o m) ≡ record (snapshot other m) {
      stream_cancellations_total =
          (snapshot other m).stream_cancellations_total
          + (if o.downstream_disconnected && not (endpoint == "") && (endpoint == other)
              then 1
              else 0);
    }
unfolding snapshot conclude record_stream_cancellation
snapshot-conclude endpoint other o m =
    ground (arith, count_at-count_up endpoint other m.stream_cancellations)
