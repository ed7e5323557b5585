-- ===== src/Bridge/Release.antt =====
-- legacy_sse.py, `process_response`: the task that has an upstream response gives everything back,
-- whatever other tasks do during its waits.
use mcp_mux_2_0_dev.Base.{
  ℕ, String, ◌≡◌, refl, subst, sym, ◌∙◌, Option, none, some, List, [], ◌∷◌, Bool, true, false,
  arith, nat_beq_iff, Bool-cases, inl, inr, if◌then◌else◌, suc, zero, ◌+◌, any, filter, not,
  nat_beq,
}
use mcp_mux_2_0_dev.Json.{Codec}
use mcp_mux_2_0_dev.Bridge.{Bridge, Terminal, TrackedUpstream, mark_terminal, metric, write}
use mcp_mux_2_0_dev.Bridge.Sessions.{backpressure_exceeded, blocked, enqueue_event}
use mcp_mux_2_0_dev.Bridge.Post.{shut}
use mcp_mux_2_0_dev.Bridge.Response.{
  Adapter, Closing, Ending, UpstreamResponse, Wait, release_upstream, after_events, deliver,
  process_response, response_events, response_failed,
}
use mcp_mux_2_0_dev.Bridge.Ownership.{Exited, Respects, Sound, shut-Exited}

contexts-mark_terminal :
    (codec : Codec) (current : Option ℕ) (reason : Terminal) (h : ℕ) (b : Bridge)
    → (mark_terminal codec current reason h b).contexts ≡ b.contexts
unfolding mark_terminal
contexts-mark_terminal codec current reason h b = ground arith

contexts-enqueue_event :
    (codec : Codec) (current : Option ℕ) (now : ℕ) (in_time : Bool) (event : String) (h : ℕ)
    (b : Bridge)
    → (enqueue_event codec current now in_time event h b).1.contexts ≡ b.contexts
unfolding enqueue_event metric
contexts-enqueue_event codec current now in_time event h b = ground (
  arith,
  contexts-mark_terminal codec current backpressure_exceeded h
      (metric (b.objects h).path_prefix blocked b),
)

zero_plus : (n : ℕ) → 0 + n ≡ n
zero_plus n = omega arith

any-filter :
    (u : ℕ) (us : List ℕ) → any (λ k. nat_beq k u) (filter (λ k. not (nat_beq k u)) us) ≡ false
unfolding any filter
any-filter u [] = refl
any-filter u (k ∷ us) = elim (Bool-cases (nat_beq k u)) [
  | inl e ↦ rw e (any-filter u us)
  | inr e ↦ rw (e, any) (ground (arith, e, any-filter u us))
]

module _ (a : Adapter) (current : Option ℕ) (u h : ℕ) (wait : ℕ → Wait) where
  deliver-Sound :
      ((i : ℕ) → Respects u (wait i).others)
      → (i : ℕ) (events : List String) (b : Bridge) → Sound (b.contexts u)
      → Sound ((deliver a current h wait i events b).1.contexts u)
  unfolding deliver
  deliver-Sound others i [] b s = (others i).sound b s
  deliver-Sound others i (event ∷ events) b s =
      let w = wait i in
      let b' = w.others b in
      let after = enqueue_event a.codec current w.now w.in_time event h b' in
      let here : Sound (b'.contexts u) = (others i).sound b s in
      let same = contexts-enqueue_event a.codec current w.now w.in_time event h b' in
      let put : Sound (after.1.contexts u) =
        subst (λ (c : ℕ → TrackedUpstream). Sound (c u)) (sym same) here in
      elim (Bool-cases w.cancelled) [
        | inl stopped ↦ rw stopped here
        | inr runs ↦ rw runs (elim (Bool-cases after.0) [
          | inl on ↦ rw on (deliver-Sound others (suc i) events after.1 put)
          | inr off ↦ rw off put
        ])
      ]

  contexts-after_events :
      (fault : Option String) (ending : Bool × Bridge)
      → (after_events a current h fault ending).contexts ≡ ending.1.contexts
  unfolding metric
  contexts-after_events fault (false, b) = refl
  contexts-after_events none (true, b) = refl
  contexts-after_events (some text) (true, b) =
      contexts-mark_terminal a.codec current (response_failed a text) h _

  -- the `finally` block, whatever the body left
  release_upstream-Exited :
      (closing : Closing) (e : Ending)
      → Sound (e.bridge.contexts u)
      → let ending = release_upstream u h closing e in
        (ending.completions ≡ e.completions + (if closing.completes then 1 else 0))
        × Exited (ending.bridge.contexts u)
        × (any (λ k. nat_beq k u) (ending.bridge.objects h).upstreams ≡ false)
  unfolding release_upstream shut write
  release_upstream-Exited closing e s =
      let released : Exited (((shut u e.bridge)).contexts u) = shut-Exited u e.bridge s in
      elim (Bool-cases closing.completes) [
        | inl given ↦
            rw (given, (nat_beq_iff h h).1 refl)
              (refl, released, any-filter u (e.bridge.objects h).upstreams)
        | inr missing ↦
            rw (missing, (nat_beq_iff h h).1 refl)
              (omega arith, released, any-filter u (e.bridge.objects h).upstreams)
      ]

  -- Whatever the response is, however its reading ends, whatever other tasks do or cancel during the
  -- waits, and also if closing the upstream's context raises: a response task that began to run
  -- calls `on_complete`, if there is one, exactly once, leaves an upstream context that was exited
  -- exactly once, and takes it out of the session's upstreams. Other tasks may close the context,
  -- but only by its own method.
  pub process_response-Exited :
      (closing : Closing) (r : UpstreamResponse) (b : Bridge)
      → ((i : ℕ) → Respects u (wait i).others)
      → Sound (b.contexts u)
      → let ending = process_response a current u h wait closing r b in
        (ending.completions ≡ (if closing.completes then 1 else 0))
        × Exited (ending.bridge.contexts u)
        × (any (λ k. nat_beq k u) (ending.bridge.objects h).upstreams ≡ false)
  unfolding process_response
  process_response-Exited closing r b others s =
      let (events, fault) = response_events a r in
      let body = after_events a current h fault (deliver a current h wait zero events b) in
      let (once, exited, out) =
        release_upstream-Exited closing
          (record { bridge = body; close_raised = false; completions = 0 })
          (subst (λ (c : ℕ → TrackedUpstream). Sound (c u))
            (sym (contexts-after_events fault (deliver a current h wait zero events b)))
            (deliver-Sound others zero events b s)) in
      (once ∙ zero_plus (if closing.completes then 1 else 0), exited, out)
