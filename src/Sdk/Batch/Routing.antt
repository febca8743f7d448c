-- ===== src/Sdk/Batch/Routing.antt =====
-- Each read gets the answer to its own transaction.
use stellar_quorum.Base.{
  ℕ, zero, suc, String, ◌≡◌, Bool, not, ◌||◌, Option, none, some, List, [], ◌∷◌, ◌++◌, length,
  get_elem?, All, All-append, take, drop, Bool-cases, inl, inr,
}
use stellar_quorum.Base.Number.{Number, nat, fraction, negative, infinity, nan}
use stellar_quorum.Base.Result.{Result, ok, err, ◌>>=◌}
use stellar_quorum.Sdk.Errors.{Thrown}
use stellar_quorum.Sdk.Batch.{
  Pending, Settlement, settled, fell_back, SimulationBatcher, Flight, fallback, rejected, line_for,
  addressed, answer_line, answers, is_compatible, receive, advance, single, enqueue, flush,
  flush_scheduled, resume, continue, new_batcher,
}
use stellar_quorum.Sdk.Batch.Reply.{BatchResponse, whole_id, response_xdr, refused_status}
use stellar_quorum.Sdk.Batch.Runs.{Action, request, microtask, reply, perform, run, new_batcher-ok}

module _ {V : Type 0} (decode : String → Result Thrown V) (truth : String → V) where
  -- A value that a read is settled with is the one of its transaction.
  abbrev pub IsRight : Pending × Settlement V → Type 0
  IsRight (p, settled (ok v)) = v ≡ truth p.transaction
  IsRight (p, settled (err e)) = Unit
  IsRight (p, fell_back) = Unit

  abbrev pub Says : Result Thrown V → Option Pending → Type 0
  Says (err e) o = Unit
  Says (ok v) none = Unit
  Says (ok v) (some p) = v ≡ truth p.transaction

  abbrev place : List Pending → Number → Option Pending
  place chunk (nat i) = get_elem? chunk i
  place chunk _ = none

  -- A response with a value has the value of the transaction that stood at its id in the batch.
  abbrev pub IsHonest : List Pending → Option BatchResponse → Type 0
  IsHonest chunk none = Unit
  IsHonest chunk (some r) = Says (response_xdr r >>= decode) (place chunk r.id)

  abbrev pub IsHonestReply :
      List Pending → Result Thrown (Option (List (Option BatchResponse))) → Type 0
  IsHonestReply chunk (err e) = Unit
  IsHonestReply chunk (ok none) = Unit
  IsHonestReply chunk (ok (some rs)) = All (IsHonest chunk) rs

  abbrev HonestTo : Option Flight → Result Thrown (Option (List (Option BatchResponse))) → Type 0
  HonestTo none r = Unit
  HonestTo (some f) r = IsHonestReply f.waiting r

  -- The provider is honest in each reply of the run.
  abbrev pub IsHonestRun : List Action → SimulationBatcher V → Type 0
  IsHonestRun [] b = Unit
  IsHonestRun (request p ∷ more) b = IsHonestRun more (perform decode (request p) b)
  IsHonestRun (microtask ∷ more) b = IsHonestRun more (perform decode microtask b)
  IsHonestRun (reply k r ∷ more) b =
      HonestTo (get_elem? b.flights k) r × IsHonestRun more (perform decode (reply k r) b)

  said-IsRight :
      (x : Result Thrown V) (o : Option Pending)
      → Says x o
      → All IsRight (line_for decode (settled x) o)
  said-IsRight (err e) none h = tt
  said-IsRight (err e) (some p) h = (tt, tt)
  said-IsRight (ok v) none h = tt
  said-IsRight (ok v) (some p) h = (h, tt)

  answered-IsRight :
      (chunk : List Pending) (r : Option BatchResponse)
      → IsHonest chunk r
      → All IsRight (answer_line decode chunk r)
  answered-IsRight chunk none h = tt
  answered-IsRight chunk (some r) h = at_id r.id h
    where
      at_id :
          (id : Number)
          → Says (response_xdr r >>= decode) (place chunk id)
          → All IsRight (
              line_for decode (settled (response_xdr r >>= decode)) (addressed chunk (whole_id id)))
      at_id (nat i) h = said-IsRight (response_xdr r >>= decode) (get_elem? chunk i) h
      at_id (fraction k s) h = tt
      at_id (negative s) h = tt
      at_id infinity h = tt
      at_id nan h = tt

  answers-IsRight :
      (chunk : List Pending) (rs : List (Option BatchResponse))
      → All (IsHonest chunk) rs
      → All IsRight (answers decode chunk rs)
  unfolding answers
  answers-IsRight chunk [] h = tt
  answers-IsRight chunk (r ∷ rs) h =
      All-append IsRight (answer_line decode chunk r) (answers decode chunk rs)
        (answered-IsRight chunk r h.0) (answers-IsRight chunk rs h.1)

  fallback-IsRight : (ps : List Pending) → All IsRight (fallback ps)
  fallback-IsRight [] = tt
  fallback-IsRight (p ∷ ps) = (tt, fallback-IsRight ps)

  rejected-IsRight : (e : Thrown) (ps : List Pending) → All IsRight (rejected e ps)
  rejected-IsRight e [] = tt
  rejected-IsRight e (p ∷ ps) = (tt, rejected-IsRight e ps)

  receive-IsRight :
      (supported : Bool) (chunk : List Pending)
      (r : Result Thrown (Option (List (Option BatchResponse))))
      → IsHonestReply chunk r
      → All IsRight (receive decode supported chunk r).done
  unfolding receive
  receive-IsRight supported chunk (ok none) h = fallback-IsRight chunk
  receive-IsRight supported chunk (ok (some rs)) h =
      elim (Bool-cases (is_compatible decode chunk rs)) [
        | inl fits ↦ rw fits (answers-IsRight chunk rs h)
        | inr misfits ↦ rw misfits (fallback-IsRight chunk)
      ]
  receive-IsRight supported chunk (err e) h = elim (Bool-cases (refused_status e.status)) [
    | inl refused ↦ rw refused (fallback-IsRight chunk)
    | inr failed ↦ rw failed (rejected-IsRight e chunk)
  ]

  advance-IsRight :
      (size : ℕ) (supported : Bool) (rounds : ℕ) (ps : List Pending)
      → All IsRight (advance decode size supported rounds ps).done
  unfolding advance
  advance-IsRight size supported zero ps = tt
  advance-IsRight size supported (suc rounds) [] = tt
  advance-IsRight size supported (suc rounds) (p ∷ ps) =
      let chunk = take size (p ∷ ps) in
      let behind = drop size (p ∷ ps) in
      elim (Bool-cases (not supported || single decode chunk)) [
        | inl alone ↦ rw alone (
            All-append IsRight (fallback chunk) (advance decode size supported rounds behind).done
              (fallback-IsRight chunk) (advance-IsRight size supported rounds behind))
        | inr batch ↦ rw batch tt
      ]

  flush_scheduled-IsRight :
      (n : ℕ) (b : SimulationBatcher V)
      → All IsRight b.log
      → All IsRight (flush_scheduled decode n b).log
  flush_scheduled-IsRight zero b h = h
  flush_scheduled-IsRight (suc n) b h =
      All-append IsRight b.log (advance decode b.size b.supported (length b.pending) b.pending).done
        h (advance-IsRight b.size b.supported (length b.pending) b.pending)

  resume-IsRight :
      (k : ℕ) (r : Result Thrown (Option (List (Option BatchResponse)))) (b : SimulationBatcher V)
      (o : Option Flight)
      → HonestTo o r
      → All IsRight b.log
      → All IsRight (resume decode k r b o).log
  resume-IsRight k r b none honest h = h
  resume-IsRight k r b (some f) honest h =
      let received = receive decode b.supported f.waiting r in
      let a = advance decode b.size received.supported (length f.rest) f.rest in
      All-append IsRight (b.log ++ received.done) a.done
        (All-append IsRight b.log received.done h (receive-IsRight b.supported f.waiting r honest))
        (advance-IsRight b.size received.supported (length f.rest) f.rest)

  enqueue-IsRight :
      (p : Pending) (b : SimulationBatcher V)
      → All IsRight b.log
      → All IsRight (enqueue decode p b).log
  unfolding enqueue
  enqueue-IsRight p b h = elim (Bool-cases b.supported) [
    | inl on ↦ rw on h
    | inr off ↦ rw off (All-append IsRight b.log ((p, fell_back) ∷ []) h (tt, tt))
  ]

  runs-IsRight :
      (actions : List Action) (b : SimulationBatcher V)
      → IsHonestRun actions b
      → All IsRight b.log
      → All IsRight (run decode actions b).log
  unfolding run flush continue
  runs-IsRight [] b honest h = h
  runs-IsRight (request p ∷ more) b honest h =
      runs-IsRight more (enqueue decode p b) honest (enqueue-IsRight p b h)
  runs-IsRight (microtask ∷ more) b honest h =
      runs-IsRight more (flush decode b) honest (flush_scheduled-IsRight b.scheduled b h)
  runs-IsRight (reply k r ∷ more) b honest h =
      runs-IsRight more (continue decode k r b) honest.1
        (resume-IsRight k r b (get_elem? b.flights k) honest.0 h)

  -- In every order of reads, microtasks and replies of an honest provider, in whatever order it answers a
  -- batch, each read that a batch settles with a value has the value of its own transaction.
  pub run-IsRight :
      (size : Number) (b : SimulationBatcher V) (actions : List Action)
      → new_batcher size ≡ ok b
      → IsHonestRun actions b
      → All IsRight (run decode actions b).log
  run-IsRight size b actions new honest =
      let fresh = new_batcher-ok size b new in runs-IsRight actions b honest (rw fresh.3 tt)
