-- ===== src/Agent/Started.antt =====
-- Start of client/internal/agent/agent.go: the states that it goes through.
use vpn_cloude.Base.{
  ◌≡◌, ◌≢◌, refl, sym, ap, subst, ◌∙◌, Bool, true, false, not, Option, none, some, List, [], ◌∷◌,
  ◌==◌, Bytes, if_both, Bool-cases, inl, inr,
}
use vpn_cloude.Stdlib.Text.{is_empty, trim_space}
use vpn_cloude.Stdlib.Ip.{V6Text}
use vpn_cloude.Agent.{
  state_init, state_authenticating, state_registering, state_discovering, state_connecting,
  state_running, StateMachine, set_state, Config, Agent, AgentCall, refresh_endpoint_if_needed,
}
use vpn_cloude.Agent.Beats.{refresh-machine}
use vpn_cloude.Agent.Life.{
  StartError, Launch, Phase, use_member_token, login_error, enter, register_phase, login_phase,
  identify, tunnel_phase, find_vnc, run_phase, start_agent,
}

abbrev pub new_machine : StateMachine
new_machine = record { state = state_init; told = [] }

abbrev authenticating_machine : StateMachine
authenticating_machine = record {
  state = state_authenticating;
  told = (state_init, state_authenticating) ∷ [];
}

-- With a member token the agent does not register.
abbrev pub identified : Bool → StateMachine
identified true = authenticating_machine
identified false = record {
  state = state_registering;
  told = (state_authenticating, state_registering) ∷ authenticating_machine.told;
}

abbrev pub running_machine : StateMachine → StateMachine
running_machine machine = record {
  state = state_running;
  told =
      (state_connecting, state_running)
      ∷ (state_discovering, state_connecting)
      ∷ (machine.state, state_discovering)
      ∷ machine.told;
}

-- A phase that succeeds leaves the machine of an agent that is identified; one that fails does not have it running.
abbrev IsIdentified : Bool → Phase → Type 0
IsIdentified by_token (none, a) = a.machine ≡ identified by_token
IsIdentified by_token (some e, a) = a.machine.state ≢ state_running

not_running_1 : state_authenticating ≢ state_running
not_running_1 e = cc e

not_running_2 : state_registering ≢ state_running
not_running_2 e = cc e

register_phase-IsIdentified :
    (keys : Bool) (registered_as : Option (Bytes × Bytes)) (a : Agent)
    → a.machine ≡ identified false
    → IsIdentified false (register_phase keys registered_as a)
unfolding register_phase
register_phase-IsIdentified false registered_as a h =
    subst (λ machine. machine.state ≢ state_running) (sym h) not_running_2
register_phase-IsIdentified true none a h =
    subst (λ machine. machine.state ≢ state_running) (sym h) not_running_2
register_phase-IsIdentified true (some (virtual_ip, peer_id)) a h = h

login_phase-IsIdentified :
    (failure : Option StartError) (launch : Launch) (a : Agent)
    → a.machine ≡ authenticating_machine
    → IsIdentified false (login_phase failure launch a)
unfolding login_phase set_state
login_phase-IsIdentified (some e) launch a h =
    subst (λ machine. machine.state ≢ state_running) (sym h) not_running_1
login_phase-IsIdentified none launch a h =
    register_phase-IsIdentified launch.key_pair launch.registered_as (enter state_registering a)
      (ap (set_state state_registering) h)

identify-IsIdentified :
    (config : Config) (launch : Launch) (a : Agent)
    → a.machine ≡ authenticating_machine
    → IsIdentified (use_member_token config) (identify config launch a)
unfolding identify
identify-IsIdentified config launch a h = elim (Bool-cases (use_member_token config)) [
  | inl token ↦ rw token h
  | inr no_token ↦
      rw no_token (login_phase-IsIdentified (login_error config launch.login) launch a h)
]

not_running_identified : (by_token : Bool) → (identified by_token).state ≢ state_running
not_running_identified true = not_running_1
not_running_identified false = not_running_2

tunnel_phase-IsIdentified :
    (config : Config) (launch : Launch) (by_token : Bool) (phase : Phase)
    → IsIdentified by_token phase
    → IsIdentified by_token (tunnel_phase config launch phase)
unfolding tunnel_phase
tunnel_phase-IsIdentified config launch by_token (some e, a) h = h
tunnel_phase-IsIdentified config launch by_token (none, a) h =
    let failed =
      subst (λ machine. machine.state ≢ state_running) (sym h) (not_running_identified by_token) in
    if_both (IsIdentified by_token) (not launch.tunnel_created) failed
      (if_both (IsIdentified by_token) (not launch.tunnel_started) failed h)

-- The agent runs and went through the states in order, or it sent nothing and does not run.
abbrev pub IsStarted : Bool → Option StartError × List AgentCall × Agent → Type 0
IsStarted by_token (none, calls, a) = a.machine ≡ running_machine (identified by_token)
IsStarted by_token (some e, calls, a) = (calls ≡ []) × (a.machine.state ≢ state_running)

find_vnc-machine :
    (config : Config) (launch : Launch) (a : Agent) → (find_vnc config launch a).machine ≡ a.machine
unfolding find_vnc
find_vnc-machine config launch a =
    if_both (λ (b : Agent). b.machine ≡ a.machine) (not (config.vnc_port == 0)) refl refl

running_identified :
    (by_token : Bool)
    → set_state state_running
        (set_state state_connecting (set_state state_discovering (identified by_token)))
      ≡ running_machine (identified by_token)
unfolding set_state
running_identified true = refl
running_identified false = refl

run_phase-IsStarted :
    (v6 : V6Text) (config : Config) (launch : Launch) (by_token : Bool) (phase : Phase)
    → IsIdentified by_token phase
    → IsStarted by_token (run_phase v6 config launch phase)
unfolding run_phase
run_phase-IsStarted v6 config launch by_token (some e, a) h = (refl, h)
run_phase-IsStarted v6 config launch by_token (none, a) h =
    let beat = launch.beat in
    let discovering = enter state_discovering a in
    let found =
      refresh_endpoint_if_needed v6 config beat.now true beat.stun beat.outbound discovering in
    ap (λ machine. set_state state_running (set_state state_connecting machine))
      (find_vnc-machine config launch found.1
        ∙ refresh-machine v6 config beat.now true beat.stun beat.outbound discovering
        ∙ ap (set_state state_discovering) h)
    ∙ running_identified by_token

-- A new agent that starts runs, by way of authenticating, registering if it has no member token,
-- discovering and connecting; one whose start_agent fails has announced nothing and sent no heartbeat, and it does
-- not run.
pub start_agent-IsStarted :
    (v6 : V6Text) (config : Config) (launch : Launch) (a : Agent)
    → a.machine ≡ new_machine
    → IsStarted (use_member_token config) (start_agent v6 config launch a)
unfolding start_agent set_state
start_agent-IsStarted v6 config launch a h =
    let idle = subst (λ machine. machine.state ≢ state_running) (sym h) (λ e. cc e) in
    let outcome = IsStarted (use_member_token config) in
    if_both outcome (is_empty (trim_space config.server_url)) (refl, idle)
      (if_both outcome (is_empty (trim_space config.network_id)) (refl, idle)
        (run_phase-IsStarted v6 config launch (use_member_token config)
          (tunnel_phase config launch (identify config launch (enter state_authenticating a)))
          (tunnel_phase-IsIdentified config launch (use_member_token config)
            (identify config launch (enter state_authenticating a))
            (identify-IsIdentified config launch (enter state_authenticating a)
              (ap (set_state state_authenticating) h)))))
