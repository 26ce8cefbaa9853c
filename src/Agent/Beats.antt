-- ===== src/Agent/Beats.antt =====
-- `heartbeatLoop` of client/internal/agent/agent.go over any run of ticks.
use vpn_cloude.Base.{
  ℕ, ◌^◌, ◌<◌, ◌≤◌, min, ◌≡◌, refl, sym, ap, ◌∙◌, ◌⊎◌, inl, inr, Bool, true, false, Option, none,
  some, List, not, if_both, ltb, ◌==◌, if◌then◌else◌, Bytes, if_split, arith,
}
use native.Mathlib.Nat.{pow-le-pow_right}
use vpn_cloude.Stdlib.Text.{is_empty}
use vpn_cloude.Stdlib.Ip.{V6Text}
use vpn_cloude.Agent.{
  AgentState, state_init, state_authenticating, state_registering, state_discovering,
  state_connecting, state_running, state_reconnecting, state_stopped, StateMachine, set_state,
  state_number, Config, Agent, AgentCall, Beat, Beating, backoff, id_of, beat_outcome, beat_once,
  send_heartbeat, refresh_endpoint_if_needed, refreshed, discover_public_ip, min_int,
  max_reconnect_backoff,
}

-- The states of the loop: no failure and running, or reconnecting.
abbrev pub IsSteady : Beating → Type 0
IsSteady b =
    ((b.failures ≡ 0) × (b.agent.machine.state ≡ state_running))
    ⊎ ((0 < b.failures) × (b.agent.machine.state ≡ state_reconnecting))

-- Runs of the loop, from a running agent.
pub data Reach (v6 : V6Text) (config : Config) (use_member_token : Bool) : Beating → Type 0 where
  start :
      (a : Agent)
      → a.machine.state ≡ state_running
      → Reach v6 config use_member_token (record { agent = a; failures = 0 })
  tick :
      {b : Beating} (beat : Beat)
      → Reach v6 config use_member_token b
      → Reach v6 config use_member_token (beat_once v6 config use_member_token beat b).2

-- The state of a number.
abbrev state_at : ℕ → AgentState
state_at n =
    if n == 0
    then state_init
    else if n == 1
    then state_authenticating
    else if n == 2
    then state_registering
    else if n == 3
    then state_discovering
    else if n == 4
    then state_connecting
    else if n == 5
    then state_running
    else if n == 6
    then state_reconnecting
    else state_stopped

state_at-state_number : (s : AgentState) → state_at (state_number s) ≡ s
state_at-state_number state_init = refl
state_at-state_number state_authenticating = refl
state_at-state_number state_registering = refl
state_at-state_number state_discovering = refl
state_at-state_number state_connecting = refl
state_at-state_number state_running = refl
state_at-state_number state_reconnecting = refl
state_at-state_number state_stopped = refl

same_state : (s t : AgentState) → state_number s ≡ state_number t → s ≡ t
same_state s t h = sym (state_at-state_number s) ∙ ap state_at h ∙ state_at-state_number t

set_state-state :
    (next : AgentState) (machine : StateMachine) → (set_state next machine).state ≡ next
unfolding set_state
set_state-state next machine = ground (arith, same_state machine.state next)

refreshed-machine :
    (config : Config) (now : ℕ) (a : Agent) (found : Option Bytes)
    → (refreshed config now a found).1.machine ≡ a.machine
unfolding refreshed
refreshed-machine config now a none =
    if_both (λ (out : Option (Bytes × Bool) × Agent). out.1.machine ≡ a.machine)
      (not (is_empty a.public_endpoint)) refl refl
refreshed-machine config now a (some ip) = refl

pub refresh-machine :
    (v6 : V6Text) (config : Config) (now : ℕ) (force : Bool) (stun : Option Bytes)
    (outbound : Bytes) (a : Agent)
    → (refresh_endpoint_if_needed v6 config now force stun outbound a).1.machine ≡ a.machine
unfolding refresh_endpoint_if_needed
refresh-machine v6 config now force stun outbound a =
    if_both (λ (out : Option (Bytes × Bool) × Agent). out.1.machine ≡ a.machine) _ refl
      (refreshed-machine config now a (discover_public_ip v6 stun outbound))

send_heartbeat-machine :
    (v6 : V6Text) (config : Config) (id : Bytes) (beat : Beat) (a : Agent)
    → (send_heartbeat v6 config id beat a).2.machine ≡ a.machine
unfolding send_heartbeat
send_heartbeat-machine v6 config id beat a =
    if_both (λ (out : List AgentCall × Bool × Agent). out.2.machine ≡ a.machine) (is_empty id) refl
      (refresh-machine v6 config beat.now false beat.stun beat.outbound a)

beat_outcome-IsSteady :
    (b : Beating) (out : List AgentCall × Bool × Agent)
    → out.2.machine ≡ b.agent.machine
    → IsSteady b
    → IsSteady (beat_outcome b out).2
unfolding beat_outcome
beat_outcome-IsSteady b (calls, false, after) same h =
    inr (omega arith, set_state-state state_reconnecting after.machine)
beat_outcome-IsSteady b (calls, true, after) same h =
    if_split IsSteady (ltb 0 b.failures)
      (λ failed. inl (refl, set_state-state state_running after.machine))
      (λ none_failed. by_state h none_failed)
  where
    by_state :
        IsSteady b
        → ltb 0 b.failures ≡ false
        → IsSteady (record { agent = after; failures = b.failures })
    by_state (inl (zero_failures, running)) e =
        inl (zero_failures, ap (λ (m : StateMachine). m.state) same ∙ running)
    by_state (inr (failed, reconnecting)) e = absurd (ground arith)

-- After any run of heartbeats either the last one succeeded and the agent is running, or there are failures
-- and it is reconnecting.
pub Reach-IsSteady :
    {v6 : V6Text} {config : Config} {use_member_token : Bool} {b : Beating}
    → Reach v6 config use_member_token b
    → IsSteady b
unfolding beat_once
Reach-IsSteady (start a running) = inl (refl, running)
Reach-IsSteady {v6} {config} {use_member_token} (tick {b} beat r) =
    beat_outcome-IsSteady b (send_heartbeat v6 config (id_of use_member_token b.agent) beat b.agent)
      (send_heartbeat-machine v6 config (id_of use_member_token b.agent) beat b.agent)
      (Reach-IsSteady r)

-- No pause, no failures, and the agent is running.
abbrev pub Recovered : List AgentCall × ℕ × Beating → Type 0
Recovered (calls, wait, b) = (wait ≡ 0) × (b.failures ≡ 0) × (b.agent.machine.state ≡ state_running)

beat_outcome-Recovered :
    (b : Beating) (calls : List AgentCall) (after : Agent)
    → after.machine ≡ b.agent.machine
    → IsSteady b
    → Recovered (beat_outcome b (calls, true, after))
unfolding beat_outcome
beat_outcome-Recovered b calls after same (inl (zero_failures, running)) = (
  refl,
  ground (arith, zero_failures),
  if_split (λ (c : Beating). c.agent.machine.state ≡ state_running) (ltb 0 b.failures)
      (λ failed. set_state-state state_running after.machine)
      (λ none_failed. ap (λ (m : StateMachine). m.state) same ∙ running),
)
beat_outcome-Recovered b calls after same (inr (failed, reconnecting)) = (
  refl,
  ground (arith, failed),
  if_split (λ (c : Beating). c.agent.machine.state ≡ state_running) (ltb 0 b.failures)
      (λ some_failed. set_state-state state_running after.machine)
      (λ none_failed. absurd (ground (arith, failed, none_failed))),
)

sent_heartbeat :
    (v6 : V6Text) (config : Config) (id : Bytes) (beat : Beat) (a : Agent)
    → is_empty id ≡ false
    → beat.accepted ≡ true
    → (send_heartbeat v6 config id beat a).1 ≡ true
unfolding send_heartbeat
sent_heartbeat v6 config id beat a there taken = ground (arith, there, taken)

outcome-Recovered :
    (b : Beating) (out : List AgentCall × Bool × Agent)
    → out.1 ≡ true
    → out.2.machine ≡ b.agent.machine
    → IsSteady b
    → Recovered (beat_outcome b out)
outcome-Recovered b (calls, false, after) sent same h = absurd (cc sent)
outcome-Recovered b (calls, true, after) sent same h = beat_outcome-Recovered b calls after same h

-- However many heartbeats failed, the first one that the server takes has the agent running again, without
-- failures and without a pause.
pub beat_once-Recovered :
    {v6 : V6Text} {config : Config} {use_member_token : Bool} {b : Beating} (beat : Beat)
    → Reach v6 config use_member_token b
    → is_empty (id_of use_member_token b.agent) ≡ false
    → beat.accepted ≡ true
    → Recovered (beat_once v6 config use_member_token beat b)
unfolding beat_once
beat_once-Recovered {v6} {config} {use_member_token} {b} beat r there taken =
    let id = id_of use_member_token b.agent in
    outcome-Recovered b (send_heartbeat v6 config id beat b.agent)
      (sent_heartbeat v6 config id beat b.agent there taken)
      (send_heartbeat-machine v6 config id beat b.agent) (Reach-IsSteady r)

min_int_lem : (a b : ℕ) → min_int a b ≡ min a b
min_int_lem a b = ground arith

-- The pause after the nth failure in a row is 2 ^ n seconds up to the sixth failure and 64 seconds from then
-- on, so the limit of two minutes is never reached.
backoff_lem :
    (failures : ℕ)
    → (backoff failures ≡ 2 ^ min failures 6) × (backoff failures < max_reconnect_backoff)
unfolding backoff
backoff_lem failures =
    let small : 2 ^ min_int failures 6 ≤ 2 ^ 6 =
      pow-le-pow_right (omega arith) {j = 6} (omega (arith, min_int_lem failures 6)) in
    let same : 2 ^ min_int failures 6 ≡ 2 ^ min failures 6 =
      ap (λ n. 2 ^ n) (min_int_lem failures 6) in
    (ground (arith, small) ∙ same, ground (arith, small))
