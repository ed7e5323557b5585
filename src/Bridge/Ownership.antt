-- ===== src/Bridge/Ownership.antt =====
-- legacy_sse.py, `handle_post`: whose task the upstream's context and the
-- leases are, whatever other tasks do during the waits.
use mcp_mux_2_0_dev.Base.{
  ℕ, String, ◌≡◌, ◌≢◌, refl, ap, ◌∙◌, Option, none, some, Bool, true, false, arith, nat_beq_iff,
  Bool-cases, inl, inr, if◌then◌else◌, not,
}
use mcp_mux_2_0_dev.Base.Dict.{Dict}
use mcp_mux_2_0_dev.Bridge.{Bridge, TrackedUpstream, close_upstream, metric, write}
use mcp_mux_2_0_dev.Bridge.Post.{
  Begin, Handshake, Posted, PostRequest, Reply, Surroundings, accepted, after_begin, after_setup,
  answers, begin_post, count_unless, connects, enters, finish, hand_over, handle_post, interrupted,
  is_success, never_runs, post_setup_rejection, raises, refuses, sets_up, shut, shut_and_discard,
  start_setup, end_setup, track, unless_rejected, with_failure, with_success,
}

-- a context was exited once if it is closed, and not at all if it is not
abbrev pub Sound : TrackedUpstream → Type 0
Sound u = u.exits ≡ (if u.closed then 1 else 0)

pub record Exited (u : TrackedUpstream) : Type 0 where
  pub once : u.exits ≡ 1
  pub closed : u.closed ≡ true

-- What other tasks may do to a context: close it, by its own method.
pub record Respects (u : ℕ) (others : Bridge → Bridge) : Type 0 where
  pub sound : (b : Bridge) → Sound (b.contexts u) → Sound ((others b).contexts u)
  pub exited : (b : Bridge) → Exited (b.contexts u) → Exited ((others b).contexts u)

close_upstream-Exited : (u : TrackedUpstream) → Sound u → Exited (close_upstream u)
unfolding close_upstream
close_upstream-Exited u h = ground arith

pub shut-Exited : (u : ℕ) (b : Bridge) → Sound (b.contexts u) → Exited ((shut u b).contexts u)
unfolding shut write
shut-Exited u b h = rw ((nat_beq_iff u u).1 refl) (close_upstream-Exited (b.contexts u) h)

shut_and_discard-Exited :
    (u h : ℕ) (b : Bridge) → Sound (b.contexts u) → Exited ((shut_and_discard u h b).contexts u)
unfolding shut_and_discard
shut_and_discard-Exited u h b s = shut-Exited u b s

track-Sound : (u : ℕ) (b : Bridge) → Sound ((track u b).contexts u)
unfolding track write
track-Sound u b = rw ((nat_beq_iff u u).1 refl) refl

tracked : (u : ℕ) (b : Bridge) → (track u b).contexts u ≡ record { closed = false; exits = 0 }
unfolding track write
tracked u b = rw ((nat_beq_iff u u).1 refl) refl

rejection-ne-accepted :
    (request : PostRequest) (h : ℕ) (b : Bridge) → post_setup_rejection request h b ≢ some accepted
unfolding post_setup_rejection
rejection-ne-accepted request h b = ground arith

-- Who gives the leases back.
pub data Fate : Posted → Type 0 where
  -- `handle_post`, once, and the answer is not 202
  here : (reply : Reply) → reply ≢ accepted → Fate (finish reply)
  -- the response task, and the answer is 202
  response : (u : ℕ) → Fate (record { reply = some accepted; completions = 0; left_with = some u })
  -- the caller, or the response task
  raised :
      (left_with : Option ℕ)
      → Fate (record { reply = none; completions = 0; left_with = left_with })

pub record Settles (u : ℕ) (ending : Posted × Bridge) : Type 0 where
  pub fate : Fate ending.0
  pub exited : ending.0.left_with ≡ none → Exited (ending.1.contexts u)

-- A request that is cancelled while it waits for the lock raises, and leaves its context to nobody.
pub data Concludes (u : ℕ) (ending : Posted × Bridge) : Bool → Type 0 where
  settled : Settles u ending → Concludes u ending false
  abandoned : ending.0 ≡ raises → Concludes u ending true

module _ (env : Surroundings) (request : PostRequest) (u : ℕ) where
  pub record Respected : Type 0 where
    pub lock : Respects u env.during_lock
    pub read : Respects u env.during_read
    pub start : Respects u env.during_start
    pub relock : Respects u env.during_relock

  failure-Settles :
      (others : Respected) (h status : ℕ) (rejection : Option Reply) (b : Bridge)
      → rejection ≢ some accepted
      → Sound (b.contexts u)
      → Settles u (with_failure env request h u status rejection b)
  unfolding metric
  failure-Settles others h status none b ne s = record {
    fate = elim (Bool-cases env.read_cancelled) [
      | inl stopped ↦ rw stopped (raised none)
      | inr read ↦ rw read (here _ (λ e. cc))
    ];
    exited = λ _. shut_and_discard-Exited u h _ (others.read.sound _ s);
  }
  failure-Settles others h status (some r) b ne s = record {
    fate = here r (λ e. ne (ap some e));
    exited = λ _. shut-Exited u b s;
  }

  hand_over-Settles :
      (others : Respected) (h : ℕ) (handshake : Handshake) (b : Bridge)
      → Sound (b.contexts u)
      → Settles u (hand_over env request h u handshake b)
  unfolding metric
  hand_over-Settles others h enters b s = record { fate = response u; exited = λ e. cc }
  hand_over-Settles others h (interrupted entered) b s = record {
    fate = raised _;
    exited = λ _. shut_and_discard-Exited u h b s;
  }
  hand_over-Settles others h never_runs b s =
      let b' = env.during_relock (shut_and_discard u h b) in
      let exited : Exited (b'.contexts u) =
        others.relock.exited _ (shut_and_discard-Exited u h b s) in
      elim (Bool-cases env.relock_cancelled) [
        | inl stopped ↦ rw stopped (record { fate = raised none; exited = λ e. exited })
        | inr locked ↦ rw locked (
            ended (post_setup_rejection request h b') b' (rejection-ne-accepted request h b')
              exited)
      ]
    where
      ended :
          (rejection : Option Reply) (b' : Bridge)
          → rejection ≢ some accepted
          → Exited (b'.contexts u)
          → Settles u (
            finish (
                unless_rejected env request rejection
                  (refuses 502 "Legacy bridge response task ended before startup")),
            count_unless env request rejection b',
          )
      ended none b' ne x = record { fate = here _ (λ e. cc); exited = λ _. x }
      ended (some r) b' ne x = record { fate = here r (λ e. ne (ap some e)); exited = λ _. x }

  success-Settles :
      (others : Respected) (h : ℕ) (remote : Option String) (rejection : Option Reply) (b : Bridge)
      → rejection ≢ some accepted
      → Sound (b.contexts u)
      → Settles u (with_success env request h u remote rejection b)
  success-Settles others h remote none b ne s =
      hand_over-Settles others h env.handshake _ (others.start.sound _ s)
  success-Settles others h remote (some r) b ne s = record {
    fate = here r (λ e. ne (ap some e));
    exited = λ _. shut-Exited u b s;
  }

  locked-Settles :
      (others : Respected) (h status : ℕ) (remote : Option String) (b : Bridge)
      → let b' = env.during_lock (track u b) in
        Settles u (
          if not (is_success status)
          then with_failure env request h u status (post_setup_rejection request h b') b'
          else with_success env request h u remote (post_setup_rejection request h b') b')
  locked-Settles others h status remote b =
      let b' = env.during_lock (track u b) in
      let s : Sound (b'.contexts u) = others.lock.sound _ (track-Sound u b) in
      let ne = rejection-ne-accepted request h b' in
      let rejection = post_setup_rejection request h b' in
      elim (Bool-cases (is_success status)) [
        | inl good ↦ rw good (success-Settles others h remote rejection b' ne s)
        | inr bad ↦ rw bad (failure-Settles others h status rejection b' ne s)
      ]

  after_setup-Concludes :
      (others : Respected) (h status : ℕ) (remote : Option String) (b : Bridge)
      → Concludes u (after_setup env request h (connects u status remote) b) env.lock_cancelled
  after_setup-Concludes others h status remote b = elim (Bool-cases env.lock_cancelled) [
    | inl stopped ↦ rw stopped (abandoned refl)
    | inr locked ↦ rw locked (settled (locked-Settles others h status remote b))
  ]

  -- When an upstream response was entered, then, whatever other tasks did during the waits: either
  -- `handle_post` called `on_complete` once and answered something other than 202, or it answered
  -- 202 without calling it and a response task has the upstream and the leases, or it raised
  -- without calling it. Where no response task has the upstream, its context was exited exactly
  -- once, unless the request was cancelled while it waited for the session's lock with the response
  -- entered: then it raised. Other tasks may close the context, but only by its own method.
  pub handle_post-Concludes :
      (others : Respected) (b : Bridge) {status h : ℕ} {remote : Option String}
      {params headers : Dict String}
      → env.setup ≡ connects u status remote
      → (begin_post env.codec env.current env.now request b).0 ≡ sets_up h params headers
      → Concludes u (handle_post env request b) env.lock_cancelled
  unfolding handle_post
  handle_post-Concludes others b {status} {h} {remote} {params} {headers} connected begun =
      begins (begin_post env.codec env.current env.now request b) begun
    where
      begins :
          (begun' : Begin × Bridge)
          → begun'.0 ≡ sets_up h params headers
          → Concludes u (after_begin env request begun') env.lock_cancelled
      begins (answers status' message, b') e = cc
      begins (sets_up k params' headers', b') e =
          rw connected (after_setup-Concludes others k status remote _)

  -- A request that is cancelled while it waits for the session's lock, with a response entered that
  -- no other task knows of, raises with the context of the response neither closed nor exited, and
  -- without a call of `on_complete` or a response task that has it: it is never closed.
  pub handle_post-abandons :
      (b : Bridge) {status h : ℕ} {remote : Option String} {params headers : Dict String}
      → env.setup ≡ connects u status remote
      → (begin_post env.codec env.current env.now request b).0 ≡ sets_up h params headers
      → env.lock_cancelled ≡ true
      → ((c : Bridge) → (env.during_lock c).contexts u ≡ c.contexts u)
      → ((handle_post env request b).0 ≡ raises)
        × ((handle_post env request b).1.contexts u ≡ record { closed = false; exits = 0 })
  unfolding handle_post
  handle_post-abandons b {status} {h} {remote} {params} {headers} connected begun stopped unknown =
      begins (begin_post env.codec env.current env.now request b) begun
    where
      begins :
          (begun' : Begin × Bridge)
          → begun'.0 ≡ sets_up h params headers
          → ((after_begin env request begun').0 ≡ raises)
            × ((after_begin env request begun').1.contexts u ≡ record { closed = false; exits = 0 })
      begins (answers status' message, b') e = cc
      begins (sets_up k params' headers', b') e =
          let b'' =
            end_setup env.setup_task k
              (env.during_setup (start_setup env.setup_task request k b')) in
          rw (connected, stopped) (refl, unknown (track u b'') ∙ tracked u b'')
