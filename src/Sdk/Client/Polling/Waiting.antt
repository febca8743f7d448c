-- ===== src/Sdk/Client/Polling/Waiting.antt =====
-- When the loop of `submitAndWait` stops, with what, and after how many polls.
use stellar_quorum.Base.{
  ℕ, zero, suc, ◌+◌, ◌*◌, ◌-◌, ◌≤◌, ◌<◌, min, String, ◌≡◌, refl, ap, ◌∙◌, sym, none, some, ltb, ◌⊎◌,
  inl, inr, Bool-cases, Option-cases, arith,
}
use stellar_quorum.Base.Result.{Result, ok}
use stellar_quorum.Sdk.Types.{QuorumClientConfig, TransactionConfirmationOptions}
use stellar_quorum.Sdk.Client.Transport.{Response, with_timeout}
use stellar_quorum.Sdk.Errors.{Thrown}
use stellar_quorum.Sdk.Client.Polling.{
  TransactionStatus, Waited, conclusion, no_confirmation, next_test, wait_loop, Submitted,
  submit_and_wait, wait_interval, wait_timeout,
}

module _ {R : Type 0} (poll : ℕ → Result Thrown (TransactionStatus R)) (took late : ℕ → ℕ)
    (interval timeout deadline : ℕ) where
  -- When poll `n + k` starts, if all before it leave the status open and poll `n` starts at `now`.
  unfoldable pub starts : ℕ → ℕ → ℕ → ℕ
  starts n now zero = now
  starts n now (suc k) = starts (suc n) (next_test poll took late interval timeout deadline n now) k

  -- The polls `n`, `n + 1`, …, `k` of them, leave the status open.
  abbrev pub AllOpen : ℕ → ℕ → Type 0
  AllOpen n zero = Unit
  AllOpen n (suc k) = (conclusion (poll n) ≡ none) × AllOpen (suc n) k

  -- The loop from poll `n` at `now` stops after `k` polls that leave the status open: with what the
  -- next one says, if that starts before the deadline, and else with a timeout.
  pub record Stops (n now : ℕ) (w : Waited R) : Type 0 where
    pub k : ℕ
    pub last : ℕ
    pub place : last ≡ n + k
    pub opened : AllOpen n k
    pub reason :
        (r : Result Thrown R) × (w.answer ≡ some r)
        × (((starts n now k < deadline) × (conclusion (poll last) ≡ some r) × (w.polls ≡ suc k))
            ⊎ ((deadline ≤ starts n now k) × (r ≡ no_confirmation timeout) × (w.polls ≡ k)))

  abbrev loop : ℕ → ℕ → ℕ → Waited R
  loop = wait_loop poll took late interval timeout deadline

  abbrev next : ℕ → ℕ → ℕ
  next = next_test poll took late interval timeout deadline

  Stops-later :
      (n now : ℕ) (w : Waited R)
      → conclusion (poll n) ≡ none
      → Stops (suc n) (next n now) w
      → Stops n now (record { answer = w.answer; polls = suc w.polls })
  unfolding starts
  Stops-later n now w open_yet s = record {
    k = suc s.k;
    last = s.last;
    place = omega (arith, s.place);
    opened = (open_yet, s.opened);
    reason = (
      s.reason.0,
      s.reason.1,
      elim s.reason.2 [
        | inl (before, says, polls) ↦ inl (before, says, ap suc polls)
        | inr (after, says, polls) ↦ inr (after, says, ap suc polls)
      ],
    );
  }

  wait_loop-Stops :
      (rounds n now : ℕ)
      → 1 ≤ interval
      → 1 ≤ rounds
      → deadline < now + rounds
      → Stops n now (loop rounds n now)
  unfolding wait_loop starts
  wait_loop-Stops zero n now pos some_round enough = absurd (omega arith)
  wait_loop-Stops (suc rounds) n now pos some_round enough = elim (Bool-cases (ltb now deadline)) [
    | inr over ↦ rw over (record {
      k = 0;
      last = n;
      place = omega arith;
      opened = tt;
      reason = (no_confirmation timeout, refl, inr (ground arith, refl, refl));
    })
    | inl early ↦ elim (Option-cases (conclusion (poll n))) [
      | inr (r, says) ↦
          rw (early, says)
            (record {
              k = 0;
              last = n;
              place = omega arith;
              opened = tt;
              reason = (r, refl, inl (ground arith, says, refl));
            })
      | inl open_yet ↦
          let later =
            wait_loop-Stops rounds (suc n) (next n now) pos (ground arith) (ground arith) in
          let here = Stops-later n now (loop rounds (suc n) (next n now)) open_yet later in
          rw (early, open_yet) here
    ]
  ]

  starts-grow : (n now k : ℕ) → min (now + k * interval) deadline ≤ starts n now k
  unfolding starts
  starts-grow n now zero = omega arith
  starts-grow n now (suc k) =
      let later = starts-grow (suc n) (next n now) k in
      let product : suc k * interval ≡ interval + k * interval = omega arith in omega arith

module _ {R T : Type 0} (c : QuorumClientConfig) (o : TransactionConfirmationOptions)
    (parsed : Result Thrown T) (send : T → Response Submitted)
    (poll : String → ℕ → Result Thrown (TransactionStatus R)) (took late : ℕ → ℕ) (now : ℕ) where
  abbrev pub StopsInTime : String → Waited R → Type 0
  StopsInTime hash =
      Stops (poll hash) took late (wait_interval c o) (wait_timeout c o) (now + wait_timeout c o) 0
        now

  -- A transaction that the network takes on is awaited to an end, if the interval between polls is at
  -- least a millisecond: the code returns or throws what the first poll with a final status or an
  -- error says, or after the polls before the deadline, all of them inconclusive, the timeout.
  pub submit_and_wait-Stops :
      (t : T) (s : Submitted)
      → parsed ≡ ok t
      → with_timeout c "sendTransaction" (send t) ≡ ok s
      → s.failed ≡ none
      → 1 ≤ wait_interval c o
      → StopsInTime s.hash (submit_and_wait c o parsed send poll took late now)
  unfolding submit_and_wait
  submit_and_wait-Stops t s read sent taken pos =
      rw (read, sent, taken)
        (wait_loop-Stops (poll s.hash) took late (wait_interval c o) (wait_timeout c o)
          (now + wait_timeout c o) (suc (wait_timeout c o)) 0 now pos (omega arith) (omega arith))

  Stops-ok_in_time :
      (hash : String) (w : Waited R) (r : R)
      → w.answer ≡ some (ok r)
      → StopsInTime hash w
      → (w.polls - 1) * wait_interval c o < wait_timeout c o
  Stops-ok_in_time hash w r confirmed s = elim s.reason.2 [
    | inl (before, says, polls) ↦
        let grown =
          starts-grow (poll hash) took late (wait_interval c o) (wait_timeout c o)
            (now + wait_timeout c o) 0 now s.k in
        let count : w.polls - 1 ≡ s.k = omega arith in rw count (omega arith)
    | inr (after, timed_out, polls) ↦
        let mixed : some (ok r) ≡ some (no_confirmation (wait_timeout c o)) =
          sym confirmed ∙ s.reason.1 ∙ ap some timed_out in
        cc
  ]

  -- A confirmation comes within the polls that fit in the timeout.
  pub submit_and_wait_polls :
      (t : T) (s : Submitted) (r : R)
      → parsed ≡ ok t
      → with_timeout c "sendTransaction" (send t) ≡ ok s
      → s.failed ≡ none
      → 1 ≤ wait_interval c o
      → (submit_and_wait c o parsed send poll took late now).answer ≡ some (ok r)
      → ((submit_and_wait c o parsed send poll took late now).polls - 1) * wait_interval c o
        < wait_timeout c o
  submit_and_wait_polls t s r read sent taken pos confirmed =
      Stops-ok_in_time s.hash (submit_and_wait c o parsed send poll took late now) r confirmed
        (submit_and_wait-Stops t s read sent taken pos)
