-- ===== src/Frontend/Notifications.antt =====
-- frontend/lib/notifications.ts: notifications for proposal status changes.
-- The objects that map a text to a value are `Entries`; only what a key holds matters here.
pub mod Inbox
mod Tests
use text.Mathlib.Text.{◌==◌ as same_text}
use stellar_quorum.Base.{
  ℕ, zero, suc, String, Bool, true, false, not, ◌&&◌, ◌||◌, Option, none, some, List, [], ◌∷◌, ◌++◌,
  if◌then◌else◌, map, any, take, length, keep, get_or,
}
use stellar_quorum.Base.Text.{◌<>◌}
use stellar_quorum.Sdk.Cache.EntryMap.{Entries, get, set}

abbrev pub max_notifications_per_wallet : ℕ
max_notifications_per_wallet = 50

-- `status` is its text.
pub record StatusNotification : Type 0 where
  pub id : String
  pub proposal_id : String
  pub title : String
  pub status : String
  pub observed_at : String
  pub read : Bool

pub record NotificationState : Type 0 where
  pub statuses : Entries String
  pub inbox : Entries (List StatusNotification)

-- Of a proposal of the user interface: `voters` are the voters of its votes.
pub record Proposal : Type 0 where
  pub id : String
  pub title : String
  pub proposer : String
  pub voters : List String
  pub status : String

abbrev pub empty_notification_state : NotificationState
empty_notification_state = record { statuses = []; inbox = [] }

unfoldable pub is_relevant_to : Proposal → String → Bool
is_relevant_to p address = same_text p.proposer address || any (same_text address) p.voters

-- `if (address)`: an empty address is none.
abbrev pub wallet_of : Option String → Option String
wallet_of none = none
wallet_of (some a) = if same_text a "" then none else some a

abbrev relevant_for : Option String → Proposal → Bool
relevant_for none p = false
relevant_for (some a) p = is_relevant_to p a

abbrev pub changed : Option String → String → Bool
changed none status = false
changed (some previous) status = not (same_text previous status)

unfoldable pub notification_of : String → Proposal → StatusNotification
notification_of observed_at p = record {
  id = p.id <> ":" <> p.status;
  proposal_id = p.id;
  title = p.title;
  status = p.status;
  observed_at = observed_at;
  read = false;
}

-- The loop's `changes`: each is tested against the statuses that the state began with.
unfoldable pub changes :
    Entries String → Option String → String → List Proposal → List StatusNotification
changes before wallet observed_at [] = []
changes before wallet observed_at (p ∷ ps) =
    let rest = changes before wallet observed_at ps in
    if changed (get p.id before) p.status && relevant_for wallet p
    then notification_of observed_at p ∷ rest
    else rest

-- The loop's `statuses`.
unfoldable pub noted : List Proposal → Entries String → Entries String
noted [] statuses = statuses
noted (p ∷ ps) statuses = noted ps (set p.id p.status statuses)

-- `known.has(id)`
abbrev pub known : List StatusNotification → String → Bool
known existing id = any (λ n. same_text n.id id) existing

abbrev pub is_new : List StatusNotification → StatusNotification → Bool
is_new existing n = not (known existing n.id)

-- `state.inbox[address] ?? []`
abbrev pub inbox_of : String → NotificationState → List StatusNotification
inbox_of address s = get_or (get address s.inbox) []

abbrev pub deliver :
    String → List StatusNotification → NotificationState → Entries String → NotificationState
deliver address [] s statuses = record s { statuses = statuses }
deliver address (n ∷ ns) s statuses = record {
  statuses = statuses;
  inbox = set address (take max_notifications_per_wallet ((n ∷ ns) ++ inbox_of address s)) s.inbox;
}

abbrev pub record_for :
    Option String → List StatusNotification → NotificationState → Entries String → NotificationState
record_for none cs s statuses = record s { statuses = statuses }
record_for (some a) cs s statuses = deliver a (keep (is_new (inbox_of a s)) cs) s statuses

unfoldable pub record_status_changes :
    NotificationState → List Proposal → Option String → String → NotificationState
record_status_changes s ps address observed_at =
    record_for (wallet_of address) (changes s.statuses (wallet_of address) observed_at ps) s
      (noted ps s.statuses)

abbrev matches : Option String → StatusNotification → Bool
matches none n = true
matches (some id) n = same_text n.id id

abbrev pub marked : Option String → StatusNotification → StatusNotification
marked id n = if matches id n then record n { read = true } else n

abbrev mark_in :
    String
    → Option String
    → Option (List StatusNotification)
    → NotificationState
    → NotificationState
mark_in a id none s = s
mark_in a id (some ns) s = record s { inbox = set a (map (marked id) ns) s.inbox }

abbrev mark_for : Option String → Option String → NotificationState → NotificationState
mark_for none id s = s
mark_for (some a) id s = mark_in a id (get a s.inbox) s

unfoldable pub mark_read : NotificationState → Option String → Option String → NotificationState
mark_read s address id = mark_for (wallet_of address) id s

abbrev pub is_unread : StatusNotification → Bool
is_unread n = not n.read

unfoldable pub unread_count : List StatusNotification → ℕ
unread_count ns = length (keep is_unread ns)
