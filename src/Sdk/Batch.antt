-- ===== src/Sdk/Batch.antt =====
-- sdk/src/batch.ts: `SimulationBatcher`, which sends the simulations of one turn together.
-- A promise is a ticket: settling it, or letting its own request settle it, is a line of the log.
-- A flush that waits for the provider is a flight, with the chunk it sent and what it has left.
pub mod Reply
pub mod Permutation
pub mod Ids
pub mod Accounting
pub mod Runs
pub mod Queue
pub mod Unsupported
pub mod Routing
pub mod Post
mod Tests
use text.Mathlib.Text.{◌==◌ as same_text}
use stellar_quorum.Base.{
  ℕ, zero, suc, String, Bool, true, false, not, ◌&&◌, ◌||◌, Option, none, some, List, [], ◌∷◌, ◌++◌,
  if◌then◌else◌, ltb, leb, ◌==◌, map, any, take, drop, length, get_elem?,
}
use stellar_quorum.Base.Number.{Number, nat, negative, nan}
use stellar_quorum.Base.Result.{Result, ok, err, throw_if, ◌>>=◌, ◌>>◌}
use stellar_quorum.Base.Text.{◌<>◌}
use stellar_quorum.Sdk.Errors.{Thrown, instance_of, error, plain, number}
use Reply.{BatchResponse, whole_id, id_of, set_size, is_bad, refused_status, response_xdr}

-- `ticket` is the promise, with its own request (`fallback`) and its `resolve` and `reject`.
pub record Pending : Type 0 where
  pub ticket : ℕ
  pub transaction : String

pub data Settlement (V : Type 0) : Type 0 where
  settled : Result Thrown V → Settlement V
  fell_back : Settlement V

pub record Flight : Type 0 where
  pub waiting : List Pending
  pub rest : List Pending

-- `scheduled` counts the flushes in the microtask queue.
pub record SimulationBatcher (V : Type 0) : Type 0 where
  pub size : ℕ
  pub pending : List Pending
  pub supported : Bool
  pub scheduled : ℕ
  pub flights : List Flight
  pub log : List (Pending × Settlement V)

abbrev bad_size : Number → Bool
bad_size (nat n) = ltb n 1 || ltb 100 n
bad_size _ = true

abbrev size_of : Number → ℕ
size_of (nat n) = n
size_of _ = 0

unfoldable pub new_batcher : {V : Type 0} → Number → Result Thrown (SimulationBatcher V)
new_batcher size = do
  throw_if (bad_size size)
      (instance_of error "simulationBatchSize must be an integer between 1 and 100")
  ok (record {
    size = size_of size;
    pending = [];
    supported = true;
    scheduled = 0;
    flights = [];
    log = [];
  })

abbrev pub fallback : {V : Type 0} → List Pending → List (Pending × Settlement V)
fallback [] = []
fallback (p ∷ ps) = (p, fell_back) ∷ fallback ps

abbrev pub rejected : {V : Type 0} → Thrown → List Pending → List (Pending × Settlement V)
rejected e [] = []
rejected e (p ∷ ps) = (p, settled (err e)) ∷ rejected e ps

-- `chunk[response.id]`
abbrev pub addressed : List Pending → Option ℕ → Option Pending
addressed chunk none = none
addressed chunk (some i) = get_elem? chunk i

-- What a flush does before it waits again: the chunk it sends, if any, and what it settles.
pub record Advanced (V : Type 0) : Type 0 where
  pub sent : List Flight
  pub done : List (Pending × Settlement V)

pub record Received (V : Type 0) : Type 0 where
  pub supported : Bool
  pub done : List (Pending × Settlement V)

abbrev pub remove_at : {A : Type 0} → ℕ → List A → List A
remove_at k [] = []
remove_at zero (x ∷ xs) = xs
remove_at (suc k) (x ∷ xs) = x ∷ remove_at k xs

-- `decode` is `scValToNative(xdr.ScVal.fromXDR(retval, 'base64'))`.
module _ {V : Type 0} (decode : String → Result Thrown V) where
  abbrev pub answer_of : BatchResponse → Settlement V
  answer_of r = settled (do x ← response_xdr r; decode x)

  abbrev pub line_for : Settlement V → Option Pending → List (Pending × Settlement V)
  line_for s none = []
  line_for s (some p) = (p, s) ∷ []

  abbrev pub answer_line : List Pending → Option BatchResponse → List (Pending × Settlement V)
  answer_line chunk none = []
  answer_line chunk (some r) = line_for (answer_of r) (addressed chunk (whole_id r.id))

  -- `for (const response of responses)`
  unfoldable pub answers :
      List Pending → List (Option BatchResponse) → List (Pending × Settlement V)
  answers chunk [] = []
  answers chunk (r ∷ rs) = answer_line chunk r ++ answers chunk rs

  abbrev pub is_compatible : List Pending → List (Option BatchResponse) → Bool
  is_compatible chunk rs =
      length rs == length chunk
      && set_size (map id_of rs) == length chunk
      && not (any (is_bad (length chunk)) rs)

  abbrev pub incompatible : List Pending → Received V
  incompatible chunk = record { supported = false; done = fallback chunk }

  -- What comes of a chunk when `send` settles: an array, something else, or a failure.
  unfoldable pub receive :
      Bool → List Pending → Result Thrown (Option (List (Option BatchResponse))) → Received V
  receive supported chunk (ok none) = incompatible chunk
  receive supported chunk (ok (some rs)) =
      if is_compatible chunk rs
      then record { supported = supported; done = answers chunk rs }
      else incompatible chunk
  receive supported chunk (err e) =
      if refused_status e.status
      then incompatible chunk
      else record { supported = supported; done = rejected e chunk }

  abbrev pub single : List Pending → Bool
  single chunk = length chunk == 1

  -- The loop of `flush`, up to the next `await`, in at most `rounds` rounds.
  unfoldable pub advance : ℕ → Bool → ℕ → List Pending → Advanced V
  advance size supported zero ps = record { sent = []; done = [] }
  advance size supported (suc rounds) [] = record { sent = []; done = [] }
  advance size supported (suc rounds) (p ∷ ps) =
      let chunk = take size (p ∷ ps) in
      let behind = drop size (p ∷ ps) in
      let later = advance size supported rounds behind in
      if not supported || single chunk
      then record { sent = later.sent; done = fallback chunk ++ later.done }
      else record { sent = record { waiting = chunk; rest = behind } ∷ []; done = [] }

  unfoldable pub enqueue : Pending → SimulationBatcher V → SimulationBatcher V
  enqueue p b =
      if not b.supported then record b { log = b.log ++ (p, fell_back) ∷ [] } else record b {
        pending = b.pending ++ p ∷ [];
        scheduled = (if single (b.pending ++ p ∷ []) then suc b.scheduled else b.scheduled);
      }

  abbrev pub flush_scheduled : ℕ → SimulationBatcher V → SimulationBatcher V
  flush_scheduled zero b = b
  flush_scheduled (suc n) b =
      let a = advance b.size b.supported (length b.pending) b.pending in
      record b { pending = []; scheduled = n; flights = b.flights ++ a.sent; log = b.log ++ a.done }

  -- The microtask: `flush` up to its first `await`.
  unfoldable pub flush : SimulationBatcher V → SimulationBatcher V
  flush b = flush_scheduled b.scheduled b

  abbrev pub resume :
      ℕ
      → Result Thrown (Option (List (Option BatchResponse)))
      → SimulationBatcher V
      → Option Flight
      → SimulationBatcher V
  resume k reply b none = b
  resume k reply b (some f) =
      let r = receive b.supported f.waiting reply in
      let a = advance b.size r.supported (length f.rest) f.rest in
      record b {
        supported = r.supported;
        flights = remove_at k b.flights ++ a.sent;
        log = b.log ++ r.done ++ a.done;
      }

  -- The `await` of flight `k` ends with `reply`, and its flush goes on.
  unfoldable pub continue :
      ℕ
      → Result Thrown (Option (List (Option BatchResponse)))
      → SimulationBatcher V
      → SimulationBatcher V
  continue k reply b = resume k reply b (get_elem? b.flights k)
