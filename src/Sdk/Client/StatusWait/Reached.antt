-- ===== src/Sdk/Client/StatusWait/Reached.antt =====
-- What `waitForProposalStatus` ends with, and when.
use stellar_quorum.Base.{
  ℕ, zero, suc, ◌+◌, ◌-◌, ◌≤◌, ◌<◌, min, ◌≡◌, ◌≢◌, refl, sym, ap, ◌∙◌, Option, none, some, leb,
  ◌==◌, inl, inr, true, false, Bool-cases, arith, if◌then◌else◌,
}
use stellar_quorum.Base.Result.{Result, ok, err}
use stellar_quorum.Sdk.Types.{
  Proposal, ProposalStatus, QuorumClientConfig, WaitForStatusOptions, pending, active, passed,
  failed, queued, executed, cancelled,
}
use stellar_quorum.Sdk.Errors.{Thrown}
use stellar_quorum.Sdk.Client.Polling.{Waited}
use stellar_quorum.Sdk.Client.Window.{status_index}
use stellar_quorum.Sdk.Client.StatusWait.{
  verdict, has_status, judged, next_read, status_loop, proposal_not_found_error,
  proposal_status_timeout_error, wait_for_proposal_status, status_interval, status_timeout,
}

abbrev status_at : ℕ → ProposalStatus
status_at n =
    if n == 0
    then pending
    else if n == 1
    then active
    else if n == 2
    then passed
    else if n == 3
    then failed
    else if n == 4
    then queued
    else if n == 5
    then executed
    else cancelled

status_at-status_index : (s : ProposalStatus) → status_at (status_index s) ≡ s
status_at-status_index pending = refl
status_at-status_index active = refl
status_at-status_index passed = refl
status_at-status_index failed = refl
status_at-status_index queued = refl
status_at-status_index executed = refl
status_at-status_index cancelled = refl

has_status-true :
    (target : ProposalStatus) (p : Proposal) → has_status target p ≡ true → p.status ≡ target
has_status-true target p h =
    let same : status_index p.status ≡ status_index target = ground arith in
    sym (status_at-status_index p.status) ∙ ap status_at same ∙ status_at-status_index target

has_status-false :
    (target : ProposalStatus) (p : Proposal) → has_status target p ≡ false → p.status ≢ target
has_status-false target p h same =
    let index : status_index p.status ≡ status_index target = ap status_index same in ground arith

module _ (id : ℕ) (target : ProposalStatus) (get : ℕ → Result Thrown (Option Proposal))
    (took late : ℕ → ℕ) (interval timeout deadline : ℕ) where
  -- Read `n`, which starts at `now`, sees the proposal with another status before the deadline.
  abbrev pub SeesOther : ℕ → ℕ → Type 0
  SeesOther n now =
      (p : Proposal) × (get n ≡ ok (some p)) × (p.status ≢ target) × (now + took n < deadline)

  -- The reads `n`, `n + 1`, …, `k` of them, see another status before the deadline. The next read
  -- starts behind the interval, or behind what is left of the timeout if that is less.
  abbrev pub AllSeeOther : ℕ → ℕ → ℕ → Type 0
  AllSeeOther n now zero = Unit
  AllSeeOther n now (suc k) =
      SeesOther n now
      × AllSeeOther (suc n) (now + took n + min interval (deadline - (now + took n)) + late n) k

  -- When read `n + k` starts, if read `n` starts at `now`.
  unfoldable pub read_starts : ℕ → ℕ → ℕ → ℕ
  read_starts n now zero = now
  read_starts n now (suc k) =
      read_starts (suc n) (now + took n + min interval (deadline - (now + took n)) + late n) k

  -- What the wait answers, by what its last read gives and when that is over.
  pub data Answers (over : ℕ)
      : Result Thrown (Option Proposal) → Result Thrown Proposal → Type 0 where
    reached : (p : Proposal) → p.status ≡ target → Answers over (ok (some p)) (ok p)
    missing : Answers over (ok none) (err (proposal_not_found_error id))
    broken : (e : Thrown) → Answers over (err e) (err e)
    late_yet :
        (p : Proposal)
        → p.status ≢ target
        → deadline ≤ over
        → Answers over
            (ok (some p))
            (err (proposal_status_timeout_error id target p.status timeout))

  -- The loop from read `n` at `now` ends after `k` reads of another status before the deadline, with
  -- what the next one comes to.
  pub record Reaches (n now : ℕ) (w : Waited Proposal) : Type 0 where
    pub k : ℕ
    pub last : ℕ
    pub place : last ≡ n + k
    pub others : AllSeeOther n now k
    pub polls : w.polls ≡ suc k
    pub answer : Result Thrown Proposal
    pub answered : w.answer ≡ some answer
    pub cause : Answers (read_starts n now k + took last) (get last) answer

  Reaches-later :
      (n now : ℕ) (w : Waited Proposal)
      → SeesOther n now
      → Reaches (suc n) (next_read id target get took late interval timeout deadline n now) w
      → Reaches n now (record { answer = w.answer; polls = suc w.polls })
  unfolding read_starts
  Reaches-later n now w seen h = record {
    k = suc h.k;
    last = h.last;
    place = omega (arith, h.place);
    others = (seen, h.others);
    polls = ap suc h.polls;
    answer = h.answer;
    answered = h.answered;
    cause = h.cause;
  }

  Reaches-now :
      (n now : ℕ) (g : Result Thrown (Option Proposal)) (r : Result Thrown Proposal)
      → get n ≡ g
      → Answers (now + took n) g r
      → Reaches n now (record { answer = some r; polls = 1 })
  unfolding read_starts
  Reaches-now n now g r gives a = record {
    k = 0;
    last = n;
    place = omega arith;
    others = tt;
    polls = refl;
    answer = r;
    answered = refl;
    cause = rw gives a;
  }

  abbrev loop : ℕ → ℕ → ℕ → Waited Proposal
  loop = status_loop id target get took late interval timeout deadline

  abbrev next : ℕ → ℕ → ℕ
  next = next_read id target get took late interval timeout deadline

  -- The loop behind a read that has given `g`, with the rest of the loop.
  abbrev behind : ℕ → ℕ → Result Thrown (Option Proposal) → Waited Proposal → Waited Proposal
  behind n now g rest =
      judged id target get took late interval timeout deadline (verdict id target g) (now + took n)
        rest

  behind-Reaches :
      (n now : ℕ) (g : Result Thrown (Option Proposal)) (rest : Waited Proposal)
      → get n ≡ g
      → (now + took n < deadline → Reaches (suc n) (next n now) rest)
      → Reaches n now (behind n now g rest)
  behind-Reaches n now (err e) rest gives more = Reaches-now n now _ _ gives (broken e)
  behind-Reaches n now (ok none) rest gives more = Reaches-now n now _ _ gives missing
  behind-Reaches n now (ok (some p)) rest gives more = elim (Bool-cases (has_status target p)) [
    | inl hit ↦ rw hit (Reaches-now n now _ _ gives (reached p (has_status-true target p hit)))
    | inr other ↦
        let differs = has_status-false target p other in
        elim (Bool-cases (leb deadline (now + took n))) [
          | inl over ↦
              rw (other, over) (Reaches-now n now _ _ gives (late_yet p differs (ground arith)))
          | inr early ↦
              let before : now + took n < deadline = ground arith in
              rw (other, early) (Reaches-later n now rest (p, gives, differs, before) (more before))
        ]
  ]

  status_loop-Reaches :
      (rounds n now : ℕ)
      → 1 ≤ interval
      → 1 ≤ rounds
      → deadline < now + rounds
      → Reaches n now (loop rounds n now)
  unfolding status_loop
  status_loop-Reaches zero n now pos some_round enough = absurd (omega arith)
  status_loop-Reaches (suc rounds) n now pos some_round enough =
      behind-Reaches n now (get n) (loop rounds (suc n) (next n now)) refl
        λ before. status_loop-Reaches rounds (suc n) (next n now) pos (ground arith) (ground arith)

-- If the interval between reads is at least a millisecond, the wait ends. Each read but the last sees
-- the proposal, with another status than the target, before the deadline; the next one starts behind
-- the interval or what is left of the timeout, whichever is less. The last read decides the answer:
-- the proposal if it has the target status, the error of the read, the error for a proposal that does
-- not exist, or, if it has another status and the read is over no earlier than the deadline, the
-- timeout that names this status.
pub wait_for_proposal_status-Reaches :
    (c : QuorumClientConfig) (o : WaitForStatusOptions) (id : ℕ) (target : ProposalStatus)
    (get : ℕ → Result Thrown (Option Proposal)) (took late : ℕ → ℕ) (now : ℕ)
    → 1 ≤ status_interval c o
    → Reaches id target get took late
        (status_interval c o)
        (status_timeout o)
        (now + status_timeout o)
        0
        now
        (wait_for_proposal_status c o id target get took late now)
unfolding wait_for_proposal_status
wait_for_proposal_status-Reaches c o id target get took late now pos =
    status_loop-Reaches id target get took late (status_interval c o) (status_timeout o)
      (now + status_timeout o) (suc (status_timeout o)) 0 now pos (omega arith) (omega arith)
