-- ===== src/Examples/Tables.antt =====
-- Loading a protocol, runs of a conversation and the table of conversations at concrete inputs.
use multiagent_fipa_acl.Base.{
  if◌then◌else◌, nat_eq, Text, text_eq, codes, All, ok, ℕ, ◌≡◌, refl, subst, ◌≢◌, true, false, ◌&&◌,
  some, [], ◌∷◌,
}
use multiagent_fipa_acl.Base.Maps.{has, find, put, insert_new}
use multiagent_fipa_acl.Performative.{performative_txt}
use multiagent_fipa_acl.Role.{add_role}
use multiagent_fipa_acl.Transition.{
  transition_of, not_understood_transition, conversation_cancelling_transition,
  cancel_success_transition, cancel_failure_transition, general_failure_transition,
}
use multiagent_fipa_acl.State.{
  generate_default_transitions as state_defaults, final_state, new_state, set_final,
  conversation_cancelling_state, add_transitions, add_transition,
}
use multiagent_fipa_acl.Machine.{
  StateMachine, in_final_state, get_current_state, set_protocol, add_state, reset,
}
use multiagent_fipa_acl.State.SubConversations.{is_finished}
use multiagent_fipa_acl.Machine.WellFormed.{IsWellFormed}
use multiagent_fipa_acl.Machine.Loading.{
  load_specification, generate_default_transitions, generate_default_states, update_roles, validate,
}
use multiagent_fipa_acl.Machine.Loading.Loaded.{load_specification-IsWellFormed}
use multiagent_fipa_acl.Machine.Loading.Prepared.{Keyed}
use multiagent_fipa_acl.Conversation.{Conversation, has_ended, detach_observers}
use multiagent_fipa_acl.Conversation.Update.Sound.{Sound, MakesWellFormed, updates, updates-Sound}
use multiagent_fipa_acl.Monitor.{
  Monitor, new_monitor, start_conversation, get_or_create_conversation, get_conversation,
  update_conversation, cleanup,
}
use multiagent_fipa_acl.Monitor.Keys.{DistinctKeys}
use multiagent_fipa_acl.Monitor.Cleanup.{not_ended, refers, cleanup_lem}
use multiagent_fipa_acl.Monitor.Lookup.{get_or_create_conversation_lem}
use multiagent_fipa_acl.Monitor.Consistent.{Consistent}
use multiagent_fipa_acl.Monitor.Reachable.{Run, started, updated, next, finished, Run-lookup}
use multiagent_fipa_acl.Examples.Data.{
  plain_match, alice, request, reply, machine, environment, conversation, silent,
}
use multiagent_fipa_acl.Examples.Machines.{machine-IsWellFormed}

machine-Keyed : All Keyed machine.states
machine-Keyed = ((refl, (refl, tt)), ((refl, (refl, tt)), ((refl, tt), tt)))

machine_unnamed : has [] machine.states ≡ false
unfolding has
machine_unnamed = refl

machine_known : has machine.initial_state_id machine.states ≡ true
unfolding has
machine_known = refl

machine_loads : (load_specification plain_match machine (codes "request")).1 ≡ ok tt
unfolding load_specification generate_default_transitions state_defaults generate_default_states
    set_protocol performative_txt add_state final_state new_state set_final
    conversation_cancelling_state add_transitions add_transition not_understood_transition
    conversation_cancelling_transition cancel_success_transition cancel_failure_transition
    general_failure_transition transition_of update_roles add_role insert_new has find put validate
    reset
machine_loads = refl

load_specification-IsWellFormed_example :
    IsWellFormed (load_specification plain_match machine (codes "request")).0
    × ((load_specification plain_match machine (codes "request")).0.current_state_id
        ≡ machine.initial_state_id)
load_specification-IsWellFormed_example =
    load_specification-IsWellFormed plain_match machine (codes "request") machine-Keyed
      machine_unnamed machine_known machine_loads

environment-MakesWellFormed : MakesWellFormed environment
environment-MakesWellFormed protocol sm e =
    let same : machine ≡ sm = cc in
    subst (λ (x : StateMachine ⊥). IsWellFormed x) same machine-IsWellFormed

abbrev new : Conversation ⊥
new = record conversation { protocol = [] }

updates-Sound_example : Sound (updates environment (new, silent) (request ∷ reply ∷ request ∷ [])).0
updates-Sound_example =
    updates-Sound environment new silent (request ∷ reply ∷ request ∷ [])
      environment-MakesWellFormed refl

-- A conversation that has reached its final state, and a table with it.
abbrev over : Conversation ⊥
over = record conversation { state_machine = record machine { current_state_id = codes "3" } }

abbrev table : Monitor ⊥
table = record {
  self = alice;
  active_conversations = (codes "c1", 0) ∷ (codes "c2", 1) ∷ [];
  conversations = λ _. over;
  created = 2;
  observers = silent;
}

table_keys : DistinctKeys table.active_conversations
unfolding has
table_keys = (refl, (refl, tt))

table_ended : (k : ℕ) → has_ended environment.sub (table.conversations k) ≡ ok true
unfolding has_ended in_final_state get_current_state find is_finished
table_ended k = refl

cleanup_lem_example :
    ((cleanup environment table).1 ≡ ok tt)
    × ((id : Text)
        → find id (cleanup environment table).0.active_conversations
          ≡ not_ended (λ _. true) (find id table.active_conversations))
    × ((k : ℕ)
        → (cleanup environment table).0.conversations k ≡ (
            if refers table.active_conversations k && true
            then detach_observers (table.conversations k)
            else table.conversations k))
cleanup_lem_example = cleanup_lem environment (λ _. true) table table_keys table_ended

get_or_create_conversation_lem_example :
    let out = get_or_create_conversation table (codes "c9") [] in
    (get_conversation out.0 (codes "c9") ≡ some out.1)
    × (get_or_create_conversation out.0 (codes "c9") [] ≡ out)
    × ((other : Text)
        → other ≢ codes "c9"
        → get_conversation out.0 other ≡ get_conversation table other)
get_or_create_conversation_lem_example = get_or_create_conversation_lem table (codes "c9") [] []

abbrev first : Monitor ⊥
first = new_monitor alice (λ _. new) silent

abbrev second : Monitor ⊥
second = (start_conversation first (codes "c1")).0

abbrev third : Monitor ⊥
third = (update_conversation environment second request).0

short-Run : Run environment first third
short-Run = next (started first (codes "c1")) (next (updated second request) finished)

Run-lookup_example :
    Consistent third
    × ((id : Text) (k : ℕ)
        → get_conversation third id ≡ some k
        → (third.conversations k).conversation_id ≡ id)
Run-lookup_example = Run-lookup environment alice (λ _. new) silent short-Run
