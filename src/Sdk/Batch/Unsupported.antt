-- ===== src/Sdk/Batch/Unsupported.antt =====
-- A provider that turned out not to take batches is asked for none again.
use mathlib.Core.List.{append-nil}
use stellar_quorum.Base.{
  ℕ, zero, suc, String, ◌≡◌, refl, false, Option, none, some, List, [], ◌∷◌, length, get_elem?,
  drop, Bool-cases, inl, inr,
}
use stellar_quorum.Base.Result.{Result, ok, err}
use stellar_quorum.Sdk.Errors.{Thrown}
use stellar_quorum.Sdk.Batch.{
  Pending, SimulationBatcher, Flight, advance, receive, remove_at, enqueue, flush, continue,
  flush_scheduled, resume, is_compatible,
}
use stellar_quorum.Sdk.Batch.Reply.{BatchResponse, refused_status}
use stellar_quorum.Sdk.Batch.Runs.{Action, request, microtask, reply, perform, run}

-- The first list is the second with some of its members left out.
pub data IsLeftOf : List Flight → List Flight → Type 0 where
  empty : IsLeftOf [] []
  kept : {f : Flight} {fs gs : List Flight} → IsLeftOf fs gs → IsLeftOf (f ∷ fs) (f ∷ gs)
  dropped : {g : Flight} {fs gs : List Flight} → IsLeftOf fs gs → IsLeftOf fs (g ∷ gs)

IsLeftOf-self : (fs : List Flight) → IsLeftOf fs fs
IsLeftOf-self [] = empty
IsLeftOf-self (f ∷ fs) = kept (IsLeftOf-self fs)

remove_at-IsLeftOf : (k : ℕ) (fs gs : List Flight) → IsLeftOf fs gs → IsLeftOf (remove_at k fs) gs
remove_at-IsLeftOf k fs gs empty = empty
remove_at-IsLeftOf zero fs gs (kept h) = dropped h
remove_at-IsLeftOf (suc k) fs gs (kept h) = kept (remove_at-IsLeftOf k _ _ h)
remove_at-IsLeftOf k fs gs (dropped h) = dropped (remove_at-IsLeftOf k fs _ h)

module _ {V : Type 0} (decode : String → Result Thrown V) where
  sent-advance :
      (size rounds : ℕ) (ps : List Pending) → (advance decode size false rounds ps).sent ≡ []
  unfolding advance
  sent-advance size zero ps = refl
  sent-advance size (suc rounds) [] = refl
  sent-advance size (suc rounds) (p ∷ ps) = sent-advance size rounds (drop size (p ∷ ps))

  supported-receive :
      (chunk : List Pending) (r : Result Thrown (Option (List (Option BatchResponse))))
      → (receive decode false chunk r).supported ≡ false
  unfolding receive
  supported-receive chunk (ok none) = refl
  supported-receive chunk (ok (some rs)) = elim (Bool-cases (is_compatible decode chunk rs)) [
    | inl good ↦ rw good refl
    | inr bad ↦ rw bad refl
  ]
  supported-receive chunk (err e) = elim (Bool-cases (refused_status e.status)) [
    | inl refused ↦ rw refused refl
    | inr other ↦ rw other refl
  ]

  -- `b` asks for batches no more, and its flights are left of `fs`.
  abbrev IsWindingDown : List Flight → SimulationBatcher V → Type 0
  IsWindingDown fs b = (b.supported ≡ false) × IsLeftOf b.flights fs

  flush_scheduled-IsWindingDown :
      (fs : List Flight) (m : ℕ) (b : SimulationBatcher V)
      → IsWindingDown fs b
      → IsWindingDown fs (flush_scheduled decode m b)
  flush_scheduled-IsWindingDown fs zero b h = h
  flush_scheduled-IsWindingDown fs (suc m) b h =
      (h.0, rw (h.0, sent-advance b.size (length b.pending) b.pending, append-nil b.flights) h.1)

  resume-IsWindingDown :
      (fs : List Flight) (k : ℕ) (r : Result Thrown (Option (List (Option BatchResponse))))
      (b : SimulationBatcher V) (o : Option Flight)
      → IsWindingDown fs b
      → IsWindingDown fs (resume decode k r b o)
  resume-IsWindingDown fs k r b none h = h
  resume-IsWindingDown fs k r b (some f) h = (
    rw h.0 (supported-receive f.waiting r),
    rw
        (
          h.0,
          supported-receive f.waiting r,
          sent-advance b.size (length f.rest) f.rest,
          append-nil (remove_at k b.flights),
        )
        (remove_at-IsLeftOf k b.flights fs h.1),
  )

  perform-IsWindingDown :
      (fs : List Flight) (a : Action) (b : SimulationBatcher V)
      → IsWindingDown fs b
      → IsWindingDown fs (perform decode a b)
  unfolding enqueue flush continue
  perform-IsWindingDown fs (request p) b h = (rw h.0 refl, rw h.0 h.1)
  perform-IsWindingDown fs microtask b h = flush_scheduled-IsWindingDown fs b.scheduled b h
  perform-IsWindingDown fs (reply k r) b h = resume-IsWindingDown fs k r b (get_elem? b.flights k) h

  runs-IsWindingDown :
      (fs : List Flight) (actions : List Action) (b : SimulationBatcher V)
      → IsWindingDown fs b
      → IsWindingDown fs (run decode actions b)
  unfolding run
  runs-IsWindingDown fs [] b h = h
  runs-IsWindingDown fs (a ∷ more) b h =
      runs-IsWindingDown fs more (perform decode a b) (perform-IsWindingDown fs a b h)

  -- Once a provider is found not to support batches, this holds for good, and no later read, flush or
  -- reply sends a batch: those that are on their way are always some of the ones that were so then,
  -- each with the chunk that it waits for.
  pub run_unsupported :
      (actions : List Action) (b : SimulationBatcher V)
      → b.supported ≡ false
      → ((run decode actions b).supported ≡ false)
        × IsLeftOf (run decode actions b).flights b.flights
  run_unsupported actions b h = runs-IsWindingDown b.flights actions b (h, IsLeftOf-self b.flights)
