-- ===== src/Bridge/Expiry.antt =====
-- legacy_sse.py, `_expiry_loop`: a session that is not used is closed at its deadline.
use mcp_mux_2_0_dev.Base.{
  ℕ, ◌≤◌, ◌≡◌, refl, ap, subst, ◌∙◌, sym, Option, List, [], ◌∷◌, true, false, arith, nat_beq_iff,
  Bool-cases, inl, inr, false≢true, if◌then◌else◌,
}
use mcp_mux_2_0_dev.Json.{Codec}
use mcp_mux_2_0_dev.Bridge.{
  Bridge, BridgeSession, begin_close, close_session_object, end_close, metric, mark_terminal, write,
  with_session,
}
use mcp_mux_2_0_dev.Bridge.Sessions.{
  Round, Woken, again, expired, expiry_round, over, session_expired,
}

-- a wait of the loop: what other tasks do, and how it ends
pub record Wake : Type 0 where
  pub others : Bridge → Bridge
  pub now : ℕ
  pub woken : Woken

abbrev pub proceed : Round × Bridge → Round × Bridge → Round × Bridge
proceed (over, b) rest = (over, b)
proceed (again, b) rest = rest

-- `_expiry_loop`, over the given waits
unfoldable pub expiry_loop : Codec → Option ℕ → ℕ → List Wake → Bridge → Round × Bridge
expiry_loop codec current h [] b = (again, b)
expiry_loop codec current h (w ∷ wakes) b =
    let round = expiry_round codec current w.now w.woken h (w.others b) in
    let rest = expiry_loop codec current h wakes round.1 in
    if (b.objects h).closed then (over, b) else proceed round rest

-- the loop has ended, and the session is closed
abbrev pub IsOver : ℕ → Round × Bridge → Type 0
IsOver h ending = (ending.0 ≡ over) × ((ending.1.objects h).closed ≡ true)

proceed-IsOver :
    (h : ℕ) (round rest : Round × Bridge) → IsOver h round → IsOver h (proceed round rest)
proceed-IsOver h (over, b) rest done = done
proceed-IsOver h (again, b) rest done = cc

closed-close_session_object :
    (current exclude_task : Option ℕ) (h : ℕ) (b : Bridge)
    → ((close_session_object current exclude_task h b).objects h).closed ≡ true
unfolding close_session_object begin_close end_close write
closed-close_session_object current exclude_task h b = ground (arith, nat_beq_iff h h)

-- other tasks leave the session as it is
abbrev pub Quiet : ℕ → Wake → Type 0
Quiet h w = (b : Bridge) → (w.others b).objects h ≡ b.objects h

-- What the event loop promises of a wait that starts with the bridge `b`: its flags are those of
-- the events that are set, and with none of them it lasts until the deadline.
pub record Ends (h : ℕ) (w : Wake) (b : Bridge) : Type 0 where
  pub flagged : w.woken.activity_done ≡ true → ((w.others b).objects h).activity ≡ true
  pub ended : w.woken.closed_done ≡ true → ((w.others b).objects h).closed ≡ true
  pub slept :
      w.woken.activity_done ≡ false
      → w.woken.closed_done ≡ false
      → ((w.others b).objects h).expires_at ≤ w.now

module _ (codec : Codec) (current : Option ℕ) (h : ℕ) where
  -- a wait that ends at the deadline, with no activity
  late_round :
      (now : ℕ) (woken : Woken) (b : Bridge)
      → (b.objects h).closed ≡ false
      → woken.activity_done ≡ false
      → (b.objects h).expires_at ≤ now
      → IsOver h (expiry_round codec current now woken h b)
  unfolding expiry_round
  late_round now woken b runs idle late = ground (
    arith,
    closed-close_session_object current current h (
        mark_terminal codec current session_expired h (metric (b.objects h).path_prefix expired b)),
  )

  -- one wait ends the loop, at the deadline
  late_loop :
      (w : Wake) (wakes : List Wake) (b : Bridge)
      → Quiet h w
      → (b.objects h).closed ≡ false
      → w.woken.activity_done ≡ false
      → (b.objects h).expires_at ≤ w.now
      → IsOver h (expiry_loop codec current h (w ∷ wakes) b)
  unfolding expiry_loop
  late_loop w wakes b quiet runs idle late =
      let b' = w.others b in
      let done =
        late_round w.now w.woken b' (ap (λ (s : BridgeSession). s.closed) (quiet b) ∙ runs) idle
          (subst (λ (s : BridgeSession). s.expires_at ≤ w.now) (sym (quiet b)) late) in
      rw runs (proceed-IsOver h _ (expiry_loop codec current h wakes _) done)

  -- a wait that ends by the activity flag clears it, and nothing else of the session
  touched_round :
      (now : ℕ) (woken : Woken) (b : Bridge)
      → (b.objects h).closed ≡ false
      → woken.activity_done ≡ true
      → (b.objects h).activity ≡ true
      → expiry_round codec current now woken h b
        ≡ (again, with_session h (record (b.objects h) { activity = false }) b)
  unfolding expiry_round
  touched_round now woken b runs woke flag = ground arith

  -- with no activity, the wait of an open session ends at the deadline
  late :
      (w : Wake) (b : Bridge)
      → Ends h w b
      → Quiet h w
      → (b.objects h).closed ≡ false
      → w.woken.activity_done ≡ false
      → (b.objects h).expires_at ≤ w.now
  late w b ends quiet runs idle =
      subst (λ (s : BridgeSession). s.expires_at ≤ w.now) (quiet b)
        (ends.slept idle (elim (Bool-cases w.woken.closed_done) [
          | inl closes ↦ absurd (
              false≢true
                (sym (ap (λ (s : BridgeSession). s.closed) (quiet b) ∙ runs) ∙ ends.ended closes))
          | inr open_yet ↦ open_yet
        ]))

  -- A session that nobody touches any more is closed, and its loop ends, at the latest in the second
  -- wait, if each wait ends as the event loop promises: a flag that an earlier use has left set can
  -- end the first wait, but not the second, which ends at the deadline.
  pub expiry_loop-closes :
      (first second : Wake) (wakes : List Wake) (b : Bridge)
      → Quiet h first
      → Quiet h second
      → (b.objects h).closed ≡ false
      → Ends h first b
      → Ends h second (expiry_round codec current first.now first.woken h (first.others b)).1
      → IsOver h (expiry_loop codec current h (first ∷ second ∷ wakes) b)
  unfolding expiry_loop write
  expiry_loop-closes first second wakes b quiet quiet' runs ends ends' =
      elim (Bool-cases first.woken.activity_done) [
        | inr idle ↦
            late_loop first (second ∷ wakes) b quiet runs idle (late first b ends quiet runs idle)
        | inl woke ↦
            let b' = first.others b in
            let cleared = with_session h (record (b'.objects h) { activity = false }) b' in
            let same : cleared.objects h ≡ record (b.objects h) { activity = false } =
              rw ((nat_beq_iff h h).1 refl, quiet b) refl in
            let runs' : (cleared.objects h).closed ≡ false =
              ap (λ (s : BridgeSession). s.closed) same ∙ runs in
            let touched =
              touched_round first.now first.woken b'
                (ap (λ (s : BridgeSession). s.closed) (quiet b) ∙ runs) woke (ends.flagged woke) in
            let after : Ends h second cleared =
              subst (λ (r : Round × Bridge). Ends h second r.1) touched ends' in
            let idle : second.woken.activity_done ≡ false =
              elim (Bool-cases second.woken.activity_done) [
                | inl again_woke ↦ absurd (
                    false≢true (
                      sym (ap (λ (s : BridgeSession). s.activity) (quiet' cleared ∙ same))
                      ∙ after.flagged again_woke))
                | inr quiet_yet ↦ quiet_yet
              ] in
            let next =
              late_loop second wakes cleared quiet' runs' idle
                (late second cleared after quiet' runs' idle) in
            rw runs (
              subst
                (λ (r : Round × Bridge).
                  IsOver h (proceed r (expiry_loop codec current h (second ∷ wakes) r.1)))
                (sym touched) next)
      ]
