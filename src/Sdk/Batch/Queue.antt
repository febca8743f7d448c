-- ===== src/Sdk/Batch/Queue.antt =====
-- What a batch may hold, and that a read that is queued has a flush coming.
use stellar_quorum.Base.{
  ℕ, zero, suc, ◌≤◌, String, ◌≡◌, refl, ap, Bool, false, not, ◌||◌, Option, none, some, List, [],
  ◌∷◌, ◌++◌, if◌then◌else◌, ◌==◌, arith, length, get_elem?, All, take, drop, Bool-cases, inl, inr,
  All-append, length-append, length-take,
}
use stellar_quorum.Base.Number.{Number}
use stellar_quorum.Base.Result.{Result, ok}
use stellar_quorum.Sdk.Errors.{Thrown}
use stellar_quorum.Sdk.Batch.{
  Pending, SimulationBatcher, Flight, advance, receive, remove_at, single, enqueue, flush, continue,
  new_batcher, flush_scheduled, resume,
}
use stellar_quorum.Sdk.Batch.Reply.{BatchResponse}
use stellar_quorum.Sdk.Batch.Runs.{Action, request, microtask, reply, perform, run, new_batcher-ok}

abbrev IsBatch : ℕ → Flight → Type 0
IsBatch size f = (2 ≤ length f.waiting) × (length f.waiting ≤ size)

-- A queue that is empty has no flush coming, another one has exactly one.
abbrev IsDue : List Pending → ℕ → Type 0
IsDue [] scheduled = scheduled ≡ 0
IsDue (p ∷ ps) scheduled = scheduled ≡ 1

All-remove_at : (P : Flight → Type 0) (k : ℕ) (fs : List Flight) → All P fs → All P (remove_at k fs)
All-remove_at P k [] h = h
All-remove_at P zero (f ∷ fs) h = h.1
All-remove_at P (suc k) (f ∷ fs) h = (h.0, All-remove_at P k fs h.1)

IsDue-once :
    (ps : List Pending) (scheduled n : ℕ) → IsDue ps scheduled → scheduled ≡ suc n → IsDue [] n
IsDue-once [] scheduled n h e = omega arith
IsDue-once (p ∷ ps) scheduled n h e = omega arith

IsDue-queued :
    (p : Pending) (ps : List Pending) (scheduled : ℕ)
    → IsDue ps scheduled
    → IsDue (ps ++ p ∷ []) (if length (ps ++ p ∷ []) == 1 then suc scheduled else scheduled)
IsDue-queued p [] scheduled h = ap suc h
IsDue-queued p (q ∷ ps) scheduled h =
    let len = length-append ps (p ∷ []) in
    let more : (suc (length (ps ++ p ∷ [])) == 1) ≡ false = ground arith in rw more h

module _ {V : Type 0} (decode : String → Result Thrown V) where
  pub record IsSound (b : SimulationBatcher V) : Type 0 where
    pub size : 1 ≤ b.size
    pub chunks : All (IsBatch b.size) b.flights
    pub due : IsDue b.pending b.scheduled

  chunks-advance :
      (size : ℕ) (supported : Bool) (rounds : ℕ) (ps : List Pending)
      → 1 ≤ size
      → All (IsBatch size) (advance decode size supported rounds ps).sent
  unfolding advance
  chunks-advance size supported zero ps pos = tt
  chunks-advance size supported (suc rounds) [] pos = tt
  chunks-advance size supported (suc rounds) (p ∷ ps) pos =
      let chunk = take size (p ∷ ps) in
      let later = chunks-advance size supported rounds (drop size (p ∷ ps)) pos in
      let len = length-take size (p ∷ ps) in
      elim (Bool-cases (not supported || single decode chunk)) [
        | inl alone ↦ rw alone later
        | inr batch ↦ rw batch ((ground arith, omega arith), tt)
      ]

  flush_scheduled-IsSound :
      (n : ℕ) (b : SimulationBatcher V)
      → b.scheduled ≡ n
      → IsSound b
      → IsSound (flush_scheduled decode n b)
  flush_scheduled-IsSound zero b e h = h
  flush_scheduled-IsSound (suc n) b e h = record {
    size = h.size;
    chunks =
        All-append (IsBatch b.size) b.flights
          (advance decode b.size b.supported (length b.pending) b.pending).sent h.chunks
          (chunks-advance b.size b.supported (length b.pending) b.pending h.size);
    due = IsDue-once b.pending b.scheduled n h.due e;
  }

  resume-IsSound :
      (k : ℕ) (r : Result Thrown (Option (List (Option BatchResponse)))) (b : SimulationBatcher V)
      (o : Option Flight)
      → IsSound b
      → IsSound (resume decode k r b o)
  resume-IsSound k r b none h = h
  resume-IsSound k r b (some f) h = record {
    size = h.size;
    chunks =
        let after = (receive decode b.supported f.waiting r).supported in
        All-append (IsBatch b.size) (remove_at k b.flights)
          (advance decode b.size after (length f.rest) f.rest).sent
          (All-remove_at (IsBatch b.size) k b.flights h.chunks)
          (chunks-advance b.size after (length f.rest) f.rest h.size);
    due = h.due;
  }

  enqueue-IsSound :
      (p : Pending) (b : SimulationBatcher V) → IsSound b → IsSound (enqueue decode p b)
  unfolding enqueue
  enqueue-IsSound p b h = elim (Bool-cases b.supported) [
    | inl on ↦ rw on (record {
      size = h.size;
      chunks = h.chunks;
      due = IsDue-queued p b.pending b.scheduled h.due;
    })
    | inr off ↦ rw off (record { size = h.size; chunks = h.chunks; due = h.due })
  ]

  perform-IsSound :
      (a : Action) (b : SimulationBatcher V) → IsSound b → IsSound (perform decode a b)
  unfolding flush continue
  perform-IsSound (request p) b h = enqueue-IsSound p b h
  perform-IsSound microtask b h = flush_scheduled-IsSound b.scheduled b refl h
  perform-IsSound (reply k r) b h = resume-IsSound k r b (get_elem? b.flights k) h

  runs-IsSound :
      (actions : List Action) (b : SimulationBatcher V) → IsSound b → IsSound (run decode actions b)
  unfolding run
  runs-IsSound [] b h = h
  runs-IsSound (a ∷ more) b h = runs-IsSound more (perform decode a b) (perform-IsSound a b h)

  -- In every order of reads, microtasks and replies, a chunk that is sent has at least two reads and
  -- at most the configured size, and a flush is scheduled exactly when the queue is not empty, once.
  pub run-IsSound :
      (size : Number) (b : SimulationBatcher V) (actions : List Action)
      → new_batcher size ≡ ok b
      → IsSound (run decode actions b)
  run-IsSound size b actions new =
      let fresh = new_batcher-ok size b new in
      runs-IsSound actions b
        (record { size = fresh.0; chunks = rw fresh.2 tt; due = rw fresh.1 fresh.4 })
