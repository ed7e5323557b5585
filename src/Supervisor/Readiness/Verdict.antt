-- ===== src/Supervisor/Readiness/Verdict.antt =====
-- process_manager.py: how waiting for a started service ends.
use mcp_mux_2_0_dev.Base.{
  ℕ, zero, suc, ◌+◌, ◌-◌, min, ◌≤◌, ◌<◌, String, Option, none, some, Bool, true, false, ◌≡◌, refl,
  inl, inr, arith, leb, ltb, Bool-cases,
}
use mcp_mux_2_0_dev.Config.{EndpointBase, ManagedFields, ManagedReadinessConfig}
use mcp_mux_2_0_dev.Json.{Json}
use mcp_mux_2_0_dev.Supervisor.{is_alive}
use mcp_mux_2_0_dev.Supervisor.Probe.{
  ProbeRequest, accepts, probe_jsonrpc_result, probe_modern_discovery, probe_legacy_initialize,
}
use mcp_mux_2_0_dev.Supervisor.Probe.Answers.{Answer, accepts-Answer}
use mcp_mux_2_0_dev.Supervisor.Readiness.{
  Connect, refused, os_timeout, connected, World, Verdict, pause, attempt, port_rounds,
  wait_for_port, rest_of_round, after_probe, probe, fallback, probe_round, probe_rounds, after_port,
  wait_at, wait_for_readiness,
}

-- A verdict between two times.
data Timely (from until : ℕ) : Option Verdict → Type 0 where
  timely :
      (verdict : Bool) (ended : ℕ)
      → from ≤ ended
      → ended ≤ until
      → Timely from until (some (verdict, ended))

Timely-earlier :
    {from later until : ℕ} {v : Option Verdict}
    → from ≤ later
    → Timely later until v
    → Timely from until v
Timely-earlier h (timely verdict ended a z) = timely verdict ended (omega arith) z

attempt-Timely :
    (interval deadline : ℕ) (again : ℕ → Option Verdict) (now : ℕ) (c : Connect)
    → 0 < interval
    → now < deadline
    → ((later : ℕ) → now < later → later ≤ deadline → Timely later deadline (again later))
    → Timely now deadline (attempt interval deadline again now c)
attempt-Timely interval deadline again now (refused elapsed) hi hn hagain =
    elim (Bool-cases (leb deadline (now + elapsed))) [
      | inl e ↦ rw e (timely false deadline (omega arith) (omega arith))
      | inr e ↦ rw e (
          Timely-earlier {later = pause interval deadline (now + elapsed)} (ground arith)
            (hagain (pause interval deadline (now + elapsed)) (ground arith) (ground arith)))
    ]
attempt-Timely interval deadline again now (os_timeout elapsed) hi hn hagain =
    timely false (min deadline (now + elapsed)) (ground arith) (ground arith)
attempt-Timely interval deadline again now (connected elapsed closing) hi hn hagain =
    elim (Bool-cases (leb deadline (now + elapsed))) [
      | inl e ↦ rw e (timely false deadline (omega arith) (omega arith))
      | inr e ↦
          rw e (timely true (min deadline (now + elapsed + closing)) (ground arith) (ground arith))
    ]

port_rounds-Timely :
    (w : World) (host : String) (port interval deadline fuel now : ℕ)
    → 0 < interval
    → now ≤ deadline
    → deadline < now + fuel
    → Timely now deadline (port_rounds w host port interval deadline fuel now)
unfolding port_rounds
port_rounds-Timely w host port interval deadline zero now hi hn hf = ground arith
port_rounds-Timely w host port interval deadline (suc fuel) now hi hn hf =
    elim (Bool-cases (leb deadline now)) [
      | inl e ↦ rw e (timely false now (omega arith) (omega arith))
      | inr e ↦ rw e (
          attempt-Timely interval deadline (port_rounds w host port interval deadline fuel) now
            (w.connect host port now) hi (ground arith)
            λ later h g.
              port_rounds-Timely w host port interval deadline fuel later hi g (omega arith))
    ]

module _ (loads : String → Option Json) (w : World) (b : EndpointBase) where
  -- a request sent at this time gets a proper answer
  abbrev Accepted : ProbeRequest → ℕ → Type 0
  Accepted request now = accepts loads (w.send request now).reply ≡ true

  -- What a verdict means: waiting gives up, or else a probe sent in time, to a process that
  -- lived when its round began, is answered.
  pub data Judged (readiness : ManagedReadinessConfig) (from until : ℕ)
      : Option Verdict → Type 0 where
    gave_up :
        (ended : ℕ)
        → from ≤ ended
        → ended ≤ until
        → Judged readiness from until (some (false, ended))
    modern :
        (began ended : ℕ)
        → from ≤ began
        → began ≤ ended
        → ended ≤ until
        → is_alive (w.process began) ≡ true
        → Answer loads (w.send (probe_modern_discovery b) began).reply
        → Judged readiness from until (some (true, ended))
    legacy :
        (began sent ended : ℕ)
        → readiness.legacy_initialize_fallback ≡ true
        → from ≤ began
        → began ≤ sent
        → sent ≤ ended
        → ended ≤ until
        → is_alive (w.process began) ≡ true
        → Answer loads (w.send (probe_legacy_initialize b) sent).reply
        → Judged readiness from until (some (true, ended))

  -- What follows a probe's verdict: its acceptance, or the rest of the round.
  after_probe-Judged :
      (readiness : ManagedReadinessConfig) (from until now : ℕ) (request : ProbeRequest)
      (continue : ℕ → Option Verdict) (spent : ℕ) (ok : Bool)
      → now + spent ≤ until
      → (ok ≡ true → Accepted request now)
      → ((ended : ℕ)
          → now ≤ ended
          → ended ≤ until
          → Accepted request now
          → Judged readiness from until (some (true, ended)))
      → ((later : ℕ) → now ≤ later → later ≤ until → Judged readiness from until (continue later))
      → Judged readiness from until (after_probe loads w b now continue (ok, spent))
  after_probe-Judged readiness from until now request continue spent true hs ha hyes hno =
      hyes (now + spent) (omega arith) hs (ha refl)
  after_probe-Judged readiness from until now request continue spent false hs ha hyes hno =
      hno (now + spent) (omega arith) hs

  probe-Judged :
      (readiness : ManagedReadinessConfig) (from until now : ℕ) (request : ProbeRequest)
      (continue : ℕ → Option Verdict)
      → from ≤ now
      → now ≤ until
      → ((ended : ℕ)
          → now ≤ ended
          → ended ≤ until
          → Accepted request now
          → Judged readiness from until (some (true, ended)))
      → ((later : ℕ) → now ≤ later → later ≤ until → Judged readiness from until (continue later))
      → Judged readiness from until (probe loads w b request until continue now)
  unfolding probe_jsonrpc_result
  probe-Judged readiness from until now request continue hf hn hyes hno =
      elim (Bool-cases (leb until now)) [
        | inl e ↦ rw e (gave_up now hf hn)
        | inr e ↦ rw e (elim (Bool-cases (ltb (w.send request now).elapsed (until - now))) [
          | inl g ↦ rw g (
              after_probe-Judged readiness from until now request continue
                (w.send request now).elapsed (accepts loads (w.send request now).reply)
                (ground arith) (λ h. h) hyes hno)
          | inr g ↦ rw g (hno (now + (until - now)) (omega arith) (omega arith))
        ])
      ]

  rest_of_round-Judged :
      (readiness : ManagedReadinessConfig) (from until began now : ℕ) (again : ℕ → Option Verdict)
      → 0 < readiness.interval
      → from ≤ began
      → began ≤ now
      → now ≤ until
      → ((later : ℕ) → began < later → later ≤ until → Judged readiness from until (again later))
      → Judged readiness from until (rest_of_round loads w b readiness.interval until again now)
  rest_of_round-Judged readiness from until began now again hi hf hb hn hagain =
      elim (Bool-cases (leb until now)) [
        | inl e ↦ rw e (gave_up now (omega arith) hn)
        | inr e ↦ rw e (hagain (pause readiness.interval until now) (ground arith) (ground arith))
      ]

  fallback-Judged :
      (readiness : ManagedReadinessConfig) (from until began now : ℕ) (wanted : Bool)
      (continue : ℕ → Option Verdict)
      → readiness.legacy_initialize_fallback ≡ wanted
      → is_alive (w.process began) ≡ true
      → from ≤ began
      → began ≤ now
      → now ≤ until
      → ((later : ℕ) → now ≤ later → later ≤ until → Judged readiness from until (continue later))
      → Judged readiness from until (fallback loads w b wanted until continue now)
  fallback-Judged readiness from until began now true continue hw ha hf hb hn hno =
      probe-Judged readiness from until now (probe_legacy_initialize b) continue (omega arith) hn
        (λ ended h g accepted.
          legacy began now ended hw hf hb h g ha (accepts-Answer loads _ accepted))
        hno
  fallback-Judged readiness from until began now false continue hw ha hf hb hn hno =
      hno now (omega arith) hn

  probe_round-Judged :
      (readiness : ManagedReadinessConfig) (from until now : ℕ) (again : ℕ → Option Verdict)
      → 0 < readiness.interval
      → from ≤ now
      → now ≤ until
      → ((later : ℕ) → now < later → later ≤ until → Judged readiness from until (again later))
      → Judged readiness from until (probe_round loads w b readiness until again now)
  probe_round-Judged readiness from until now again hi hf hn hagain =
      elim (Bool-cases (is_alive (w.process now))) [
        | inl e ↦ rw e (
            probe-Judged readiness from until now (probe_modern_discovery b)
              (fallback loads w b readiness.legacy_initialize_fallback until
                (rest_of_round loads w b readiness.interval until again))
              hf hn
              (λ ended h g accepted. modern now ended hf h g e (accepts-Answer loads _ accepted))
              (λ later h g.
                fallback-Judged readiness from until now later readiness.legacy_initialize_fallback
                  (rest_of_round loads w b readiness.interval until again) refl e hf h g
                  λ last hl gl.
                    rest_of_round-Judged readiness from until now last again hi hf (omega arith) gl
                      hagain))
        | inr e ↦ rw e (gave_up now hf hn)
      ]

  probe_rounds-Judged :
      (readiness : ManagedReadinessConfig) (from until fuel now : ℕ)
      → 0 < readiness.interval
      → from ≤ now
      → now ≤ until
      → until < now + fuel
      → Judged readiness from until (probe_rounds loads w b readiness until fuel now)
  unfolding probe_rounds
  probe_rounds-Judged readiness from until zero now hi hf hn he = ground arith
  probe_rounds-Judged readiness from until (suc fuel) now hi hf hn he =
      probe_round-Judged readiness from until now (probe_rounds loads w b readiness until fuel) hi
        hf hn
        λ later h g.
          probe_rounds-Judged readiness from until fuel later hi (omega arith) g (omega arith)

  after_port-Judged :
      (readiness : ManagedReadinessConfig) (from until fuel : ℕ) (v : Option Verdict)
      → 0 < readiness.interval
      → until < from + fuel
      → Timely from until v
      → Judged readiness from until (after_port loads w b readiness until fuel v)
  after_port-Judged readiness from until fuel none hi he v = elim v [ ]
  after_port-Judged readiness from until fuel (some (false, now)) hi he (timely _ _ hf hn) =
      gave_up now hf hn
  after_port-Judged readiness from until fuel (some (true, now)) hi he (timely _ _ hf hn) =
      probe_rounds-Judged readiness from until fuel now hi hf hn (omega arith)

  wait_at-Judged :
      (readiness : ManagedReadinessConfig) (host : Option String) (port : Option ℕ) (fuel now : ℕ)
      → 0 < readiness.interval
      → readiness.timeout < fuel
      → Judged readiness now
          (now + readiness.timeout)
          (wait_at loads w b readiness host port fuel now)
  unfolding wait_for_port
  wait_at-Judged readiness (some host) (some port) fuel now hi hf =
      elim (Bool-cases (leb readiness.timeout 0)) [
        | inl e ↦ rw e (gave_up now (omega arith) (omega arith))
        | inr e ↦ rw e (
            after_port-Judged readiness now (now + readiness.timeout) fuel
              (wait_for_port w host port readiness.timeout readiness.interval fuel now) hi
              (omega arith)
              (port_rounds-Timely w host port readiness.interval (now + readiness.timeout) fuel now
                hi (omega arith) (omega arith)))
      ]
  wait_at-Judged readiness (some host) none fuel now hi hf = gave_up now (omega arith) (omega arith)
  wait_at-Judged readiness none port fuel now hi hf = gave_up now (omega arith) (omega arith)

  -- Waiting for a service always ends with a verdict, where the interval between probes is
  -- positive and there is fuel for every tick of the timeout: it ends no later than the timeout
  -- after it began, and it finds the service ready only if the modern probe, or the legacy one
  -- where that is configured, was sent in that time, in a round that found the process alive,
  -- and was answered with a success status and a JSON-RPC 2.0 object that has the request's id and
  -- an object as its result.
  pub wait_for_readiness-Judged :
      (m : ManagedFields) (fuel now : ℕ)
      → 0 < m.readiness.interval
      → m.readiness.timeout < fuel
      → Judged m.readiness now (now + m.readiness.timeout) (wait_for_readiness loads w b m fuel now)
  unfolding wait_for_readiness
  wait_for_readiness-Judged m fuel now hi hf =
      wait_at-Judged m.readiness m.readiness.host m.readiness.port fuel now hi hf
