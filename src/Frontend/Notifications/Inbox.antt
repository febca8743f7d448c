-- ===== src/Frontend/Notifications/Inbox.antt =====
-- What the inboxes hold.
use text.Mathlib.Text.{◌==◌ as same_text}
use text.Mathlib.TextEquality.{eq_iff}
use stellar_quorum.Base.{
  ◌≤◌, String, ◌≡◌, refl, ◌∙◌, false, Option, none, some, List, [], ◌∷◌, ◌++◌, map, take, length,
  keep, arith, Bool-cases, Option-cases, inl, inr, length-take,
}
use stellar_quorum.Sdk.Cache.EntryMap.{Entries, get, set, get-set}
use stellar_quorum.Frontend.Notifications.{
  StatusNotification, NotificationState, Proposal, changes, noted, record_status_changes,
  record_for, deliver, wallet_of, inbox_of, is_new, mark_read, marked, unread_count,
  max_notifications_per_wallet,
}

-- Each proposal has an id of its own.
abbrev IsNotIn : String → List Proposal → Type 0
IsNotIn id [] = Unit
IsNotIn id (p ∷ ps) = (same_text p.id id ≡ false) × IsNotIn id ps

abbrev pub HaveOwnIds : List Proposal → Type 0
HaveOwnIds [] = Unit
HaveOwnIds (p ∷ ps) = IsNotIn p.id ps × HaveOwnIds ps

-- A status that the loop noted, and one that it did not touch.
get-noted_other :
    (id : String) (ps : List Proposal) (m : Entries String)
    → IsNotIn id ps
    → get id (noted ps m) ≡ get id m
unfolding noted
get-noted_other id [] m h = refl
get-noted_other id (p ∷ ps) m h =
    get-noted_other id ps (set p.id p.status m) h.1 ∙ get-set p.id id p.status m ∙ rw h.0 refl

-- Nothing of the list differs from the statuses noted.
abbrev IsNoted : Entries String → List Proposal → Type 0
IsNoted m [] = Unit
IsNoted m (p ∷ ps) = (get p.id m ≡ some p.status) × IsNoted m ps

IsNoted-noted : (ps : List Proposal) (m : Entries String) → HaveOwnIds ps → IsNoted (noted ps m) ps
unfolding noted
IsNoted-noted [] m h = tt
IsNoted-noted (p ∷ ps) m h = (
  get-noted_other p.id ps (set p.id p.status m) h.0
      ∙ get-set p.id p.id p.status m
      ∙ rw ((eq_iff p.id p.id).1 refl) refl,
  IsNoted-noted ps (set p.id p.status m) h.1,
)

changes-IsNoted :
    (m : Entries String) (wallet : Option String) (at : String) (ps : List Proposal)
    → IsNoted m ps
    → changes m wallet at ps ≡ []
unfolding changes
changes-IsNoted m wallet at [] h = refl
changes-IsNoted m wallet at (p ∷ ps) h =
    rw (h.0, (eq_iff p.status p.status).1 refl) (changes-IsNoted m wallet at ps h.1)

statuses-deliver :
    (a : String) (ns : List StatusNotification) (s : NotificationState) (st : Entries String)
    → (deliver a ns s st).statuses ≡ st
statuses-deliver a [] s st = refl
statuses-deliver a (n ∷ ns) s st = refl

statuses-record_for :
    (w : Option String) (cs : List StatusNotification) (s : NotificationState) (st : Entries String)
    → (record_for w cs s st).statuses ≡ st
statuses-record_for none cs s st = refl
statuses-record_for (some a) cs s st = statuses-deliver a (keep (is_new (inbox_of a s)) cs) s st

statuses-record :
    (s : NotificationState) (ps : List Proposal) (address : Option String) (at : String)
    → (record_status_changes s ps address at).statuses ≡ noted ps s.statuses
unfolding record_status_changes
statuses-record s ps address at =
    statuses-record_for (wallet_of address) (changes s.statuses (wallet_of address) at ps) s
      (noted ps s.statuses)

inbox-record_nothing :
    (w : Option String) (s : NotificationState) (st : Entries String)
    → (record_for w [] s st).inbox ≡ s.inbox
inbox-record_nothing none s st = refl
inbox-record_nothing (some a) s st = refl

inbox-without_changes :
    (s : NotificationState) (ps : List Proposal) (address : Option String) (at : String)
    → changes s.statuses (wallet_of address) at ps ≡ []
    → (record_status_changes s ps address at).inbox ≡ s.inbox
unfolding record_status_changes
inbox-without_changes s ps address at h =
    rw h (inbox-record_nothing (wallet_of address) s (noted ps s.statuses))

-- Recording the same proposals again, for the same wallet and at any time, changes no inbox: a change
-- of status is notified once. The proposals have ids of their own.
pub inbox-record_again :
    (s : NotificationState) (ps : List Proposal) (address : Option String) (at later : String)
    → HaveOwnIds ps
    → (record_status_changes (record_status_changes s ps address at) ps address later).inbox
      ≡ (record_status_changes s ps address at).inbox
inbox-record_again s ps address at later own =
    inbox-without_changes (record_status_changes s ps address at) ps address later (
      rw (statuses-record s ps address at) (
        changes-IsNoted (noted ps s.statuses) (wallet_of address) later ps
          (IsNoted-noted ps s.statuses own)))

-- No proposal of the list has been seen before.
abbrev pub AllUnseen : Entries String → List Proposal → Type 0
AllUnseen m [] = Unit
AllUnseen m (p ∷ ps) = (get p.id m ≡ none) × AllUnseen m ps

changes-AllUnseen :
    (m : Entries String) (wallet : Option String) (at : String) (ps : List Proposal)
    → AllUnseen m ps
    → changes m wallet at ps ≡ []
unfolding changes
changes-AllUnseen m wallet at [] h = refl
changes-AllUnseen m wallet at (p ∷ ps) h = rw h.0 (changes-AllUnseen m wallet at ps h.1)

-- The first sighting of proposals changes no inbox.
pub inbox-record_unseen :
    (s : NotificationState) (ps : List Proposal) (address : Option String) (at : String)
    → AllUnseen s.statuses ps
    → (record_status_changes s ps address at).inbox ≡ s.inbox
inbox-record_unseen s ps address at h =
    inbox-without_changes s ps address at (changes-AllUnseen s.statuses (wallet_of address) at ps h)

abbrev IsBounded : String → NotificationState → Type 0
IsBounded b s = length (inbox_of b s) ≤ max_notifications_per_wallet

deliver-IsBounded :
    (a b : String) (ns : List StatusNotification) (s : NotificationState) (st : Entries String)
    → IsBounded b s
    → IsBounded b (deliver a ns s st)
deliver-IsBounded a b [] s st h = h
deliver-IsBounded a b (n ∷ ns) s st h =
    let all = (n ∷ ns) ++ inbox_of a s in
    let len = length-take max_notifications_per_wallet all in
    rw (get-set a b (take max_notifications_per_wallet all) s.inbox)
      (elim (Bool-cases (same_text a b)) [
        | inl same ↦ rw same (omega (arith, len))
        | inr other ↦ rw other h
      ])

record_for-IsBounded :
    (b : String) (w : Option String) (cs : List StatusNotification) (s : NotificationState)
    (st : Entries String)
    → IsBounded b s
    → IsBounded b (record_for w cs s st)
record_for-IsBounded b none cs s st h = h
record_for-IsBounded b (some a) cs s st h =
    deliver-IsBounded a b (keep (is_new (inbox_of a s)) cs) s st h

-- Recording keeps every wallet's inbox within the maximum.
pub length-inbox-record :
    (s : NotificationState) (ps : List Proposal) (address : Option String) (at b : String)
    → length (inbox_of b s) ≤ max_notifications_per_wallet
    → length (inbox_of b (record_status_changes s ps address at)) ≤ max_notifications_per_wallet
unfolding record_status_changes
length-inbox-record s ps address at b h =
    record_for-IsBounded b (wallet_of address) (changes s.statuses (wallet_of address) at ps) s
      (noted ps s.statuses) h

unread-marked : (ns : List StatusNotification) → unread_count (map (marked none) ns) ≡ 0
unfolding unread_count
unread-marked [] = refl
unread-marked (n ∷ ns) = unread-marked ns

-- Marking all of a wallet's notifications read leaves it none unread, and no other wallet's inbox is
-- changed.
pub mark_read_all :
    (s : NotificationState) (a b : String)
    → same_text a "" ≡ false
    → same_text a b ≡ false
    → (unread_count (inbox_of a (mark_read s (some a) none)) ≡ 0)
      × (inbox_of b (mark_read s (some a) none) ≡ inbox_of b s)
unfolding mark_read
mark_read_all s a b named other = elim (Option-cases (get a s.inbox)) [
  | inl empty ↦ rw (named, empty) (rw empty (unread-marked []), refl)
  | inr (ns, held) ↦
      rw (named, held)
        (rw
          (
            get-set a a (map (marked none) ns) s.inbox,
            get-set a b (map (marked none) ns) s.inbox,
            other,
            (eq_iff a a).1 refl,
          )
          (unread-marked ns, refl))
]
