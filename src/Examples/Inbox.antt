-- ===== src/Examples/Inbox.antt =====
-- A run of `CheckInbox` of internal/store/sqlite/store.go: bob lists the message that waits for him.
use holler.Prelude.{◌≡◌, refl, true, some, List, [], is_some}
use holler.Prelude.Tests.{same_text}
use holler.Bus.Result.{ok}
use holler.Bus.Text.{trim_space}
use holler.Bus.Types.{InboxItem, queued}
use holler.Store.Tables.{find_row}
use holler.Store.Recipients.{effective_delivery}
use holler.Store.Claiming.{claim_candidate}
use holler.Store.Reading.{check_inbox}
use holler.Store.Reading.Offers.{shows, check_inbox-offers}
use holler.Examples.World.{at_time, from_ok, one_message, hello}

unfoldable listed : List InboxItem
unfolding check_inbox
listed = from_ok [] (check_inbox (at_time 10) "bob" 0 one_message)

listed_runs : check_inbox (at_time 10) "bob" 0 one_message ≡ ok listed
unfolding listed check_inbox same_text trim_space effective_delivery
listed_runs = refl

abbrev first_item : InboxItem
first_item = record {
  message_id = "msg-1";
  project_id = hello.project_id;
  channel_id = hello.channel_id;
  thread_id = hello.thread_id;
  from_actor = hello.from_actor;
  from_role = hello.from_role;
  message_type = hello.message_type;
  delivery_request = hello.delivery_request;
  state = queued;
  attempt = 0;
  available = true;
  created_at = hello.created_at;
  expires_at = hello.expires_at;
  recipient_actor = "bob";
  original_recipient_actor = "";
}

first_listed : find_row (shows "msg-1") listed ≡ some first_item
unfolding listed check_inbox same_text trim_space effective_delivery
first_listed = refl

check_inbox-offers_example :
    is_some (claim_candidate one_message (trim_space "bob") "msg-1" 10) ≡ true
check_inbox-offers_example =
    check_inbox-offers (at_time 10) "bob" "msg-1" 0 one_message listed first_item listed_runs
      first_listed (unfold same_text in refl)
