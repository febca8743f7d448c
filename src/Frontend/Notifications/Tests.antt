-- ===== src/Frontend/Notifications/Tests.antt =====
-- Runs of the notifications, and their properties at inputs that meet their premises.
use stellar_quorum.Base.{◌≤◌, String, ◌≡◌, refl, Option, none, some, [], ◌∷◌, length, arith, map}
use stellar_quorum.Sdk.Cache.EntryMap.{get, set}
use stellar_quorum.Frontend.Notifications.{
  Proposal, StatusNotification, NotificationState, record_status_changes, changes, noted,
  is_relevant_to, notification_of, inbox_of, unread_count, max_notifications_per_wallet,
  empty_notification_state,
}
use stellar_quorum.Frontend.Notifications.Inbox.{inbox-record_again}

abbrev proposal_in : String → Proposal
proposal_in status = record {
  id = "7";
  title = "t";
  proposer = "GA";
  voters = "GB" ∷ [];
  status = status;
}

abbrev seen_active : NotificationState
seen_active = record { statuses = ("7", "active") ∷ []; inbox = [] }

abbrev voter : Option String
voter = some "GB"

abbrev passed : NotificationState
passed = record_status_changes seen_active (proposal_in "passed" ∷ []) voter "now"

passed_inbox : map (λ (n : StatusNotification). n.id) (inbox_of "GB" passed) ≡ "7:passed" ∷ []
unfolding record_status_changes changes noted is_relevant_to notification_of get set
passed_inbox = refl

passed_unread : unread_count (inbox_of "GB" passed) ≡ 1
unfolding record_status_changes changes noted is_relevant_to notification_of get set unread_count
passed_unread = refl

inbox-record_again_example :
    (record_status_changes passed (proposal_in "passed" ∷ []) voter "later").inbox ≡ passed.inbox
inbox-record_again_example =
    inbox-record_again seen_active (proposal_in "passed" ∷ []) voter "now" "later" (tt, tt)

unseen : get "7" empty_notification_state.statuses ≡ none
unfolding get
unseen = refl

seen_active_short : length (inbox_of "GB" seen_active) ≤ max_notifications_per_wallet
unfolding get
seen_active_short = omega arith
