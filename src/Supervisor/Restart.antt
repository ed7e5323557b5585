-- ===== src/Supervisor/Restart.antt =====
-- process_manager.py: the budget of automatic restarts, their delay and the end of the loop.
use Prim.Native.Nat.pow
use mcp_mux_2_0_dev.Base.{
  ℕ, zero, suc, ◌+◌, ◌*◌, ◌^◌, ◌≤◌, String, ◌≡◌, refl, ◌⊎◌, inl, inr, Option, none, some, false,
  arith, ltb, ap, ◌∙◌, not, ◌&&◌, Bool-cases,
}
use mcp_mux_2_0_dev.Config.{
  Endpoint, remote_endpoint, managed_endpoint, EndpointBase, ManagedRestartConfig,
}
use mcp_mux_2_0_dev.Runtime.{failed, is_state, EndpointRuntime}
use mcp_mux_2_0_dev.Supervisor.{
  CurrentTask, terminate_locked, schedule_restart_if_allowed, restart_config, may_restart,
}
use mcp_mux_2_0_dev.Supervisor.Start.{
  NewTasks, Launch, launch, start_locked, actual_launch, start_managed, prepared, StartResult,
}
use mcp_mux_2_0_dev.Supervisor.Loop.{
  RestartStep, leaves, continues, begin_restart, finish_restart, after_start, retry, forget_current,
  restart_delay, restart_loop, reserve, next, round,
}

-- Two runtimes of one endpoint with the same counts of restarts.
abbrev SameCounts : EndpointRuntime → EndpointRuntime → Type 0
SameCounts t u =
    (u.config ≡ t.config)
    × (u.restart_attempts ≡ t.restart_attempts)
    × (u.process_restarts_total ≡ t.process_restarts_total)

launch-SameCounts :
    (redact : String → String) (current : CurrentTask) (new : NewTasks) (b : EndpointBase)
    (how : Launch) (t : EndpointRuntime)
    → SameCounts t (launch redact current new b how t).1
unfolding launch schedule_restart_if_allowed terminate_locked
launch-SameCounts redact current new b how t = ground arith

start_managed-SameCounts :
    (redact : String → String) (current : CurrentTask) (new : NewTasks) (how : Launch)
    (config : Endpoint) (t : EndpointRuntime)
    → SameCounts t (start_managed redact current new false how config t).1
start_managed-SameCounts redact current new how (remote_endpoint b) t = (refl, refl, refl)
start_managed-SameCounts redact current new how (managed_endpoint b m) t = ground (
  arith,
  launch-SameCounts redact current new b (actual_launch b m how) (prepared current false t),
)

start_locked-SameCounts :
    (redact : String → String) (current : CurrentTask) (new : NewTasks) (how : Launch)
    (t : EndpointRuntime)
    → SameCounts t (start_locked redact current new false how t).1
unfolding start_locked
start_locked-SameCounts redact current new how t =
    start_managed-SameCounts redact current new how t.config t

one_le_pow : (n : ℕ) → 1 ≤ 2 ^ n
one_le_pow zero = ground arith
one_le_pow (suc n) = ground (arith, one_le_pow n)

times_pow-double : (x n : ℕ) → x * 2 ^ suc n ≡ x * 2 ^ n + x * 2 ^ n
times_pow-double x n = rw (pow.suc 2 n) (omega arith)

times_pow-grows : (x n : ℕ) → x ≤ x * 2 ^ n
times_pow-grows x zero = ground arith
times_pow-grows x (suc n) = ground (arith, times_pow-double x n, times_pow-grows x n)

-- The wait before a restart is between the first and the longest backoff, and never shrinks from
-- one attempt to the next, where the first backoff is at most the longest.
pub restart_delay-bounds :
    (restart : ManagedRestartConfig) (attempt : ℕ)
    → restart.initial_backoff ≤ restart.max_backoff
    → (restart.initial_backoff ≤ restart_delay restart attempt)
      × (restart_delay restart attempt ≤ restart.max_backoff)
      × (restart_delay restart attempt ≤ restart_delay restart (attempt + 1))
unfolding restart_delay
restart_delay-bounds restart zero h = ground arith
restart_delay-bounds restart (suc attempt) h = ground (
  arith,
  times_pow-grows restart.initial_backoff attempt,
  times_pow-double restart.initial_backoff attempt,
)

-- The counts a runtime has once the loop has returned, against those it had before: at most the
-- budget, or what it was, and one attempt for every restart.
abbrev pub InBudget : ManagedRestartConfig → EndpointRuntime → EndpointRuntime → Type 0
InBudget policy t u =
    (u.config ≡ t.config)
    × (t.restart_attempts ≤ u.restart_attempts)
    × ((u.restart_attempts ≤ policy.max_attempts) ⊎ (u.restart_attempts ≡ t.restart_attempts))
    × (u.process_restarts_total + t.restart_attempts
        ≤ t.process_restarts_total + u.restart_attempts)

-- the runtime once a restart is counted
abbrev counted : EndpointRuntime → EndpointRuntime
counted runtime = record runtime { process_restarts_total = runtime.process_restarts_total + 1 }

-- What the first critical section does under a restart policy.
data Reserved (policy : ManagedRestartConfig) (t : EndpointRuntime)
    : Option (ℕ × ℕ) × EndpointRuntime → Type 0 where
  refused : Reserved policy t (none, t)
  reserved :
      (delay : ℕ)
      → t.restart_attempts + 1 ≤ policy.max_attempts
      → Reserved policy t (
        some (t.restart_attempts + 1, delay),
        record t { restart_attempts = t.restart_attempts + 1 },
      )

reserve-Reserved :
    (policy : ManagedRestartConfig) (t : EndpointRuntime)
    → Reserved policy t (reserve (some policy) t)
unfolding is_state
reserve-Reserved policy t =
    elim (Bool-cases (is_state t.state failed && may_restart (some policy) t.restart_attempts)) [
      | inl e ↦ rw e (reserved (restart_delay policy (t.restart_attempts + 1)) (ground arith))
      | inr e ↦ rw e refused
    ]

begin_restart-Reserved :
    (policy : ManagedRestartConfig) (t : EndpointRuntime)
    → restart_config t.config ≡ some policy
    → Reserved policy t (begin_restart t)
unfolding begin_restart
begin_restart-Reserved policy t h = rw h (reserve-Reserved policy t)

-- One start more at most, and nothing else counted.
abbrev OneStart : EndpointRuntime → EndpointRuntime → Type 0
OneStart t u =
    (u.config ≡ t.config)
    × (u.restart_attempts ≡ t.restart_attempts)
    × (u.process_restarts_total ≤ t.process_restarts_total + 1)

after_start-SameCounts :
    (current : CurrentTask) (t : EndpointRuntime) (started : StartResult × EndpointRuntime)
    → SameCounts t started.1
    → SameCounts t (after_start current started).1
after_start-SameCounts current t started h = ground arith

retry-OneStart :
    (redact : String → String) (own : ℕ) (new : NewTasks) (attempt : ℕ) (how : Launch)
    (policy : Option ManagedRestartConfig) (t : EndpointRuntime)
    → OneStart t (retry redact own new attempt how policy t).1
retry-OneStart redact own new attempt how none t = ground arith
retry-OneStart redact own new attempt how (some policy) t =
    elim (Bool-cases
      (is_state t.state failed && policy.enabled && not (ltb policy.max_attempts attempt))) [
        | inl e ↦ rw e (
            ground (
              arith,
              after_start-SameCounts (some own) (counted t)
                  (start_locked redact (some own) new false how (counted t))
                  (start_locked-SameCounts redact (some own) new how (counted t)),
            ))
        | inr e ↦ rw e (refl, refl, omega arith)
      ]

finish_restart-OneStart :
    (redact : String → String) (own : ℕ) (new : NewTasks) (attempt : ℕ) (how : Launch)
    (t : EndpointRuntime)
    → OneStart t (finish_restart redact own new attempt how t).1
unfolding finish_restart
finish_restart-OneStart redact own new attempt how t =
    retry-OneStart redact own new attempt how (restart_config t.config) t

-- The result is there and has the property.
abbrev pub Returns : (EndpointRuntime → Type 0) → Option EndpointRuntime → Type 0
Returns P result = (u : EndpointRuntime) × (result ≡ some u) × P u

module _ (P : EndpointRuntime → Type 0) (again : EndpointRuntime → Option EndpointRuntime) where
  next-Returns :
      (step : RestartStep × EndpointRuntime)
      → P step.1
      → Returns P (again step.1)
      → Returns P (next again step)
  next-Returns (leaves, u) h h' = (u, refl, h)
  next-Returns (continues, u) h h' = h'

-- the runtime once an attempt is reserved
abbrev attempted : EndpointRuntime → EndpointRuntime
attempted t = record t { restart_attempts = t.restart_attempts + 1 }

OneStart-InBudget :
    (policy : ManagedRestartConfig) (t u : EndpointRuntime)
    → t.restart_attempts + 1 ≤ policy.max_attempts
    → OneStart (attempted t) u
    → InBudget policy t u
OneStart-InBudget policy t u h h' = ground arith

InBudget-after :
    (policy : ManagedRestartConfig) (t u v : EndpointRuntime)
    → t.restart_attempts + 1 ≤ policy.max_attempts
    → OneStart (attempted t) u
    → InBudget policy u v
    → InBudget policy t v
InBudget-after policy t u v h h' h'' = ground arith

Returns-map :
    (P Q : EndpointRuntime → Type 0) (result : Option EndpointRuntime)
    → ((u : EndpointRuntime) → P u → Q u)
    → Returns P result
    → Returns Q result
Returns-map P Q result f (u, e, h) = (u, e, f u h)

module _ (redact : String → String) (own : ℕ) (new : NewTasks) (launches : ℕ → Launch)
    (policy : ManagedRestartConfig) where
  round-Returns :
      (again : EndpointRuntime → Option EndpointRuntime) (t : EndpointRuntime)
      (began : Option (ℕ × ℕ) × EndpointRuntime)
      → Reserved policy t began
      → ((u : EndpointRuntime)
          → t.restart_attempts + 1 ≤ policy.max_attempts
          → OneStart (attempted t) u
          → Returns (InBudget policy u) (again u))
      → Returns (InBudget policy t) (round redact own new launches again began)
  round-Returns again t _ refused ih = (forget_current (some own) t, refl, ground arith)
  round-Returns again t _ (reserved delay h) ih =
      let attempt = t.restart_attempts + 1 in
      let step = finish_restart redact own new attempt (launches attempt) (attempted t) in
      let one = finish_restart-OneStart redact own new attempt (launches attempt) (attempted t) in
      next-Returns (InBudget policy t) again step (OneStart-InBudget policy t step.1 h one) (
        Returns-map (InBudget policy step.1) (InBudget policy t) (again step.1)
          (λ v. InBudget-after policy t step.1 v h one) (ih step.1 h one))

  -- Under a restart policy the restart loop returns, whatever the launches do, on as much fuel as
  -- there are attempts left in the budget and one more, when nothing else touches the runtime
  -- meanwhile. The endpoint's configuration is as it was, the attempts counted are within the
  -- budget or as many as before, and there were at most as many restarts as new attempts.
  pub restart_loop-Returns :
      (n : ℕ) (t : EndpointRuntime)
      → restart_config t.config ≡ some policy
      → policy.max_attempts ≤ n + t.restart_attempts
      → Returns (InBudget policy t) (restart_loop redact own new launches (suc n) t)
  unfolding restart_loop
  restart_loop-Returns zero t h h' =
      round-Returns (restart_loop redact own new launches zero) t (begin_restart t)
        (begin_restart-Reserved policy t h) (λ u le one. ground arith)
  restart_loop-Returns (suc n) t h h' =
      round-Returns (restart_loop redact own new launches (suc n)) t (begin_restart t)
        (begin_restart-Reserved policy t h)
        (λ u le one. restart_loop-Returns n u (ap restart_config one.0 ∙ h) (ground arith))
