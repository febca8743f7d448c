-- ===== src/Sdk/Batch/Runs.antt =====
-- Every order of reads, microtasks and answers of the provider: what the batcher keeps.
use mathlib.Core.Path.{subst}
use stellar_quorum.Base.{
  ℕ, zero, suc, ◌+◌, ◌≤◌, String, ◌≡◌, refl, ◌∙◌, Bool, not, ◌||◌, Option, some, List, [], ◌∷◌,
  ◌++◌, arith, length, get_elem?, take, drop, Bool-cases, ltb, inl, inr, length-drop, Option-cases,
  ℕ-cases,
}
use stellar_quorum.Base.Result.{Result, ok}
use stellar_quorum.Base.Number.{Number, nat, fraction, negative, infinity, nan}
use stellar_quorum.Sdk.Errors.{Thrown}
use stellar_quorum.Sdk.Batch.{
  Pending, SimulationBatcher, Flight, fell_back, fallback, advance, receive, remove_at, single,
  enqueue, flush, continue, new_batcher,
}
use stellar_quorum.Sdk.Batch.Reply.{BatchResponse}
use stellar_quorum.Sdk.Batch.Accounting.{
  times, indicator, times_done, times-append, times-split, times_done-append, times_done-fallback,
  times_done-receive,
}

pub data Action : Type 0 where
  request : Pending → Action
  microtask : Action
  reply : ℕ → Result Thrown (Option (List (Option BatchResponse))) → Action

-- How often the ticket is in the air.
unfoldable pub times_flying : ℕ → List Flight → ℕ
times_flying t [] = 0
times_flying t (f ∷ fs) = times t f.waiting + times t f.rest + times_flying t fs

times_flying-append :
    (t : ℕ) (fs gs : List Flight)
    → times_flying t (fs ++ gs) ≡ times_flying t fs + times_flying t gs
unfolding times_flying
times_flying-append t [] gs = omega arith
times_flying-append t (f ∷ fs) gs = omega (arith, times_flying-append t fs gs)

times_flying-remove_at :
    (t k : ℕ) (fs : List Flight) (f : Flight)
    → get_elem? fs k ≡ some f
    → times_flying t (remove_at k fs) + times t f.waiting + times t f.rest ≡ times_flying t fs
unfolding times_flying
times_flying-remove_at t k [] f h = cc
times_flying-remove_at t zero (g ∷ fs) f h = let same : g ≡ f = cc in rw same (omega arith)
times_flying-remove_at t (suc k) (g ∷ fs) f h = omega (arith, times_flying-remove_at t k fs f h)

unfoldable pub requested : List Action → List Pending
requested [] = []
requested (request p ∷ more) = p ∷ requested more
requested (microtask ∷ more) = requested more
requested (reply k r ∷ more) = requested more

abbrev IsFresh : {V : Type 0} → SimulationBatcher V → Type 0
IsFresh b = (1 ≤ b.size) × (b.pending ≡ []) × (b.flights ≡ []) × (b.log ≡ []) × (b.scheduled ≡ 0)

abbrev wrapped : {A : Type 0} → A → Result Thrown A
wrapped a = ok a

ok-injective : {A : Type 0} (a b : A) → wrapped a ≡ ok b → a ≡ b
ok-injective a b h = cc

pub new_batcher-ok :
    {V : Type 0} (size : Number) (b : SimulationBatcher V) → new_batcher size ≡ ok b → IsFresh b
unfolding new_batcher
new_batcher-ok (nat n) b h = elim (Bool-cases (ltb n 1 || ltb 100 n)) [
  | inl bad ↦ let refused = rw bad at h in cc
  | inr good ↦
      let made = ok-injective _ b (rw good at h) in
      subst IsFresh made (ground arith, refl, refl, refl, refl)
]
new_batcher-ok (fraction k s) b h = cc
new_batcher-ok (negative s) b h = cc
new_batcher-ok infinity b h = cc
new_batcher-ok nan b h = cc

module _ {V : Type 0} (decode : String → Result Thrown V) where
  -- The loop of a flush either settles a ticket or leaves it in the flight it sends.
  times-advance :
      (t size : ℕ) (supported : Bool) (rounds : ℕ) (ps : List Pending)
      → 1 ≤ size
      → length ps ≤ rounds
      → times_flying t (advance decode size supported rounds ps).sent
          + times_done t (advance decode size supported rounds ps).done
        ≡ times t ps
  unfolding advance times_flying times_done times
  times-advance t size supported zero [] pos enough = refl
  times-advance t size supported zero (p ∷ ps) pos enough = absurd (omega arith)
  times-advance t size supported (suc rounds) [] pos enough = refl
  times-advance t size supported (suc rounds) (p ∷ ps) pos enough =
      let chunk = take size (p ∷ ps) in
      let behind = drop size (p ∷ ps) in
      let halves : times t chunk + times t behind ≡ indicator t p + times t ps =
        times-split t size (p ∷ ps) in
      let shorter : length behind ≤ rounds = omega (arith, length-drop size (p ∷ ps)) in
      let later = times-advance t size supported rounds behind pos shorter in
      elim (Bool-cases (not supported || single decode chunk)) [
        | inl alone ↦ rw alone (
            rw
              (
                times_done-append t (fallback chunk)
                    (advance decode size supported rounds behind).done,
                times_done-fallback V t chunk,
              )
              (omega arith))
        | inr batch ↦ rw batch (omega arith)
      ]

  abbrev pub perform : Action → SimulationBatcher V → SimulationBatcher V
  perform (request p) b = enqueue decode p b
  perform microtask b = flush decode b
  perform (reply k r) b = continue decode k r b

  unfoldable pub run : List Action → SimulationBatcher V → SimulationBatcher V
  run [] b = b
  run (a ∷ more) b = run more (perform a b)

  -- Where a ticket can be.
  unfoldable pub total : ℕ → SimulationBatcher V → ℕ
  total t b = times t b.pending + times_flying t b.flights + times_done t b.log

  total-enqueue :
      (t : ℕ) (p : Pending) (b : SimulationBatcher V)
      → total t (enqueue decode p b) ≡ total t b + indicator t p
  unfolding total enqueue times times_done
  total-enqueue t p b = elim (Bool-cases b.supported) [
    | inl on ↦ rw on (rw (times-append t b.pending (p ∷ [])) (omega arith))
    | inr off ↦ rw off (rw (times_done-append t b.log ((p, fell_back) ∷ [])) (omega arith))
  ]

  total-flush :
      (t : ℕ) (b : SimulationBatcher V) → 1 ≤ b.size → total t (flush decode b) ≡ total t b
  unfolding total flush times
  total-flush t b pos = elim (ℕ-cases b.scheduled) [
    | inl none_due ↦ rw none_due refl
    | inr (n, due) ↦
        let a = advance decode b.size b.supported (length b.pending) b.pending in
        let kept =
          times-advance t b.size b.supported (length b.pending) b.pending pos (omega arith) in
        rw due (
          rw (times_flying-append t b.flights a.sent, times_done-append t b.log a.done)
            (omega arith))
  ]

  total-continue :
      (t k : ℕ) (r : Result Thrown (Option (List (Option BatchResponse)))) (b : SimulationBatcher V)
      → 1 ≤ b.size
      → total t (continue decode k r b) ≡ total t b
  unfolding total continue
  total-continue t k r b pos = elim (Option-cases (get_elem? b.flights k)) [
    | inl nobody ↦ rw nobody refl
    | inr (f, flying) ↦
        let o = receive decode b.supported f.waiting r in
        let a = advance decode b.size o.supported (length f.rest) f.rest in
        let kept = times-advance t b.size o.supported (length f.rest) f.rest pos (omega arith) in
        let chunk = times_done-receive decode t b.supported f.waiting r in
        let left = times_flying-remove_at t k b.flights f flying in
        let flights = times_flying-append t (remove_at k b.flights) a.sent in
        let log = times_done-append t (b.log ++ o.done) a.done in
        let done = times_done-append t b.log o.done in
        let sum : times t b.pending
              + times_flying t (remove_at k b.flights ++ a.sent)
              + times_done t (b.log ++ o.done ++ a.done)
            ≡ times t b.pending + times_flying t b.flights + times_done t b.log =
          omega arith in
        rw flying sum
  ]

  size-perform : (a : Action) (b : SimulationBatcher V) → (perform a b).size ≡ b.size
  unfolding enqueue flush continue
  size-perform (request p) b = elim (Bool-cases b.supported) [
    | inl on ↦ rw on refl
    | inr off ↦ rw off refl
  ]
  size-perform microtask b = elim (ℕ-cases b.scheduled) [
    | inl none_due ↦ rw none_due refl
    | inr (n, due) ↦ rw due refl
  ]
  size-perform (reply k r) b = elim (Option-cases (get_elem? b.flights k)) [
    | inl nobody ↦ rw nobody refl
    | inr (f, flying) ↦ rw flying refl
  ]

  total-perform :
      (t : ℕ) (a : Action) (b : SimulationBatcher V)
      → 1 ≤ b.size
      → total t (perform a b) ≡ total t b + times t (requested (a ∷ []))
  unfolding requested times
  total-perform t (request p) b pos = total-enqueue t p b ∙ omega arith
  total-perform t microtask b pos = total-flush t b pos ∙ omega arith
  total-perform t (reply k r) b pos = total-continue t k r b pos ∙ omega arith

  times-requested :
      (t : ℕ) (a : Action) (more : List Action)
      → times t (requested (a ∷ more)) ≡ times t (requested (a ∷ [])) + times t (requested more)
  unfolding requested times
  times-requested t (request p) more = omega arith
  times-requested t microtask more = omega arith
  times-requested t (reply k r) more = omega arith

  total-run :
      (t : ℕ) (actions : List Action) (b : SimulationBatcher V)
      → 1 ≤ b.size
      → total t (run actions b) ≡ total t b + times t (requested actions)
  unfolding run times requested
  total-run t [] b pos = omega arith
  total-run t (a ∷ more) b pos =
      let kept = size-perform a b in
      let later = total-run t more (perform a b) (omega arith) in
      let now = total-perform t a b pos in let parts = times-requested t a more in omega arith

  -- From a new batcher, in whatever order reads, microtasks and replies come, and whatever the
  -- replies hold: when nothing is queued or waiting for the provider, each read has been settled
  -- exactly as often as it was requested.
  pub run-settles_each_read :
      (t : ℕ) (size : Number) (b : SimulationBatcher V) (actions : List Action)
      → new_batcher size ≡ ok b
      → (run actions b).pending ≡ []
      → (run actions b).flights ≡ []
      → times_done t (run actions b).log ≡ times t (requested actions)
  unfolding total times times_flying times_done
  run-settles_each_read t size b actions new idle landed =
      let fresh = new_batcher-ok size b new in
      let all = total-run t actions b fresh.0 in
      let before : total t b ≡ 0 = rw (fresh.1, fresh.2, fresh.3) refl in
      let after : total t (run actions b) ≡ times_done t (run actions b).log =
        rw (idle, landed) (omega arith) in
      omega arith
