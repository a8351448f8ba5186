-- ===== src/Examples/Machines.antt =====
-- The request protocol at concrete inputs: its states, its state machine, a conversation.
use multiagent_fipa_acl.Base.{
  nat_eq, text_eq, count, Error, is_runtime_error, ok, err, ◌≡◌, refl, ◌⊎◌, true, false,
}
use multiagent_fipa_acl.Base.Maps.{has, find, put}
use multiagent_fipa_acl.Role.{add_expected_agent}
use multiagent_fipa_acl.State.SubConversations.{is_finished}
use multiagent_fipa_acl.State.Messages.{get_transition}
use multiagent_fipa_acl.State.Generated.{Generated}
use multiagent_fipa_acl.Machine.{
  consume_message, no_machine, get_current_state, update_role_mapping, in_failure_state,
  in_final_state,
}
use multiagent_fipa_acl.Machine.WellFormed.{IsWellFormed}
use multiagent_fipa_acl.Machine.Consume.{ConsumeOutcome, consume_message_lem}
use multiagent_fipa_acl.Conversation.{add_observer, notify_all, has_ended, notify, status_after}
use multiagent_fipa_acl.Conversation.Observed.{
  observes, Distinct, Notified, add_observer-Distinct, notify_all-Notified,
}
use multiagent_fipa_acl.Conversation.Update.{update}
use multiagent_fipa_acl.Conversation.Update.Started.{is_start, update-no_start}
use multiagent_fipa_acl.Conversation.Update.Outcomes.{UpdateResult, update-UpdateResult}
use multiagent_fipa_acl.Examples.Data.{
  plain_match, request, machine, environment, conversation, silent,
}

pub machine-IsWellFormed : IsWellFormed machine
unfolding has
machine-IsWellFormed = record {
  current = refl;
  named = refl;
  entries = (
    (refl, (record { source = refl; target = refl; sender = refl; receiver = refl }, tt), tt),
    (
      (
        refl,
        (record { source = refl; target = refl; sender = refl; receiver = refl }, tt),
        ((λ _. (refl, refl)), tt),
      ),
      ((refl, tt, tt), tt),
    ),
  );
}

consume_message_lem_example :
    ConsumeOutcome plain_match machine request (consume_message plain_match machine request)
consume_message_lem_example = consume_message_lem plain_match machine request machine-IsWellFormed

observers-Distinct : Distinct conversation.observers
observers-Distinct = (refl, (refl, tt))

update-UpdateResult_example :
    UpdateResult environment conversation silent request false
      (update environment conversation silent request)
update-UpdateResult_example =
    update-UpdateResult environment conversation silent request observers-Distinct

-- The first message of the protocol is taken.
request_taken : (update environment conversation silent request).1 ≡ ok tt
unfolding update consume_message get_current_state find get_transition update_role_mapping
    add_expected_agent put notify_all in_failure_state has_ended in_final_state is_finished notify
    status_after
request_taken = refl

update-no_start_example :
    count is_start ((update environment conversation silent request).0.1 4).events
    ≡ count is_start (silent 4).events
update-no_start_example =
    update-no_start environment conversation silent request observers-Distinct refl request_taken 4

add_observer-Distinct_example :
    Distinct (add_observer conversation silent 9).0.observers
    × (observes (add_observer conversation silent 9).0.observers 9 ≡ true)
add_observer-Distinct_example = add_observer-Distinct conversation silent 9 observers-Distinct

notify_all-Notified_example :
    let out = notify_all no_machine (λ k. k) conversation silent request true in
    ((e : Error) × (out.1 ≡ err e) × (is_runtime_error e ≡ false))
    ⊎ ((out.1 ≡ ok tt)
        × Notified no_machine (λ k. k) conversation out.0.0 silent out.0.1 request true)
notify_all-Notified_example =
    notify_all-Notified no_machine (λ k. k) conversation silent request true observers-Distinct
