-- ===== src/Sdk/Batch/Post.antt =====
-- `postSimulationBatch` of sdk/src/batch.ts: the request that carries a batch, and what its caller
-- gets in each way that the request ends. `fetch` and `json` are the platform's: how they settle,
-- and whether the timer has aborted the request by then, is given.
use stellar_quorum.Base.{
  ℕ, zero, suc, String, ◌≡◌, refl, Bool, true, false, ◌&&◌, Option, none, some, List, [], ◌∷◌, ◌+◌,
  if◌then◌else◌, leb, arith, get_elem?, ap, ◌∙◌,
}
use stellar_quorum.Base.Result.{Result, ok, err}
use stellar_quorum.Base.Text.{◌<>◌, decimal}
use stellar_quorum.Sdk.Errors.{Thrown, instance_of, error}
use stellar_quorum.Sdk.Batch.{Pending, receive, incompatible, rejected}
use stellar_quorum.Sdk.Batch.Reply.{BatchResponse, refused_status}

pub record BatchCall : Type 0 where
  pub jsonrpc : String
  pub id : ℕ
  pub method : String
  pub transaction : String

abbrev pub batch_call : ℕ → String → BatchCall
batch_call id transaction = record {
  jsonrpc = "2.0";
  id = id;
  method = "simulateTransaction";
  transaction = transaction;
}

abbrev pub batch_calls_from : ℕ → List String → List BatchCall
batch_calls_from id [] = []
batch_calls_from id (t ∷ ts) = batch_call id t ∷ batch_calls_from (suc id) ts

abbrev pub batch_calls : List String → List BatchCall
batch_calls transactions = batch_calls_from 0 transactions

-- How a step of the platform settles, with `controller.signal.aborted` when the code goes on.
pub record Step (A : Type 0) : Type 0 where
  pub outcome : Result Thrown A
  pub aborted : Bool

-- `body` is how `response.json()` settles.
pub record Response (A : Type 0) : Type 0 where
  pub status : ℕ
  pub body : Step A

abbrev pub is_ok : ℕ → Bool
is_ok status = leb 200 status && leb status 299

abbrev pub batch_timeout : Thrown
batch_timeout = instance_of error "Batch simulation timeout"

abbrev pub batch_http : ℕ → Thrown
batch_http status = record (instance_of error ("Batch simulation HTTP " <> decimal status)) {
  status = some status;
}

-- The outer `catch`.
abbrev pub caught : {A : Type 0} → Bool → Thrown → Result Thrown (Option A)
caught aborted e = if aborted then err batch_timeout else err e

-- `undefined`, for a body that is no JSON, is `none`.
abbrev pub body_of : {A : Type 0} → Result Thrown (Option A) → Bool → Result Thrown (Option A)
body_of (ok value) aborted = ok value
body_of (err e) aborted = if aborted then caught aborted e else ok none

abbrev pub answered : {A : Type 0} → Bool → Response (Option A) → Result Thrown (Option A)
answered aborted r =
    if is_ok r.status
    then body_of r.body.outcome r.body.aborted
    else caught aborted (batch_http r.status)

abbrev pub fetched :
    {A : Type 0} → Bool → Result Thrown (Response (Option A)) → Result Thrown (Option A)
fetched aborted (err e) = caught aborted e
fetched aborted (ok r) = answered aborted r

unfoldable pub post_simulation_batch :
    {A : Type 0}
    → (List BatchCall → Step (Response (Option A)))
    → List String
    → Result Thrown (Option A)
post_simulation_batch fetch transactions =
    let s = fetch (batch_calls transactions) in fetched s.aborted s.outcome

abbrev call_for : ℕ → Option String → Option BatchCall
call_for id none = none
call_for id (some t) = some (batch_call id t)

batch_calls_from-get_elem? :
    (id k : ℕ) (ts : List String)
    → get_elem? (batch_calls_from id ts) k ≡ call_for (id + k) (get_elem? ts k)
batch_calls_from-get_elem? id zero [] = refl
batch_calls_from-get_elem? id (suc k) [] = refl
batch_calls_from-get_elem? id zero (t ∷ ts) =
    let here : id ≡ id + 0 = omega arith in ap (λ n. some (batch_call n t)) here
batch_calls_from-get_elem? id (suc k) (t ∷ ts) =
    let there : suc id + k ≡ id + suc k = omega arith in
    batch_calls_from-get_elem? (suc id) k ts ∙ ap (λ n. call_for n (get_elem? ts k)) there

-- The id of a call is the place of its transaction in the batch.
batch_calls-get_elem? :
    (k : ℕ) (ts : List String) → get_elem? (batch_calls ts) k ≡ call_for k (get_elem? ts k)
batch_calls-get_elem? k ts =
    let start : 0 + k ≡ k = omega arith in
    batch_calls_from-get_elem? 0 k ts ∙ ap (λ n. call_for n (get_elem? ts k)) start

-- What the batcher makes of each end of the request.
module _ {V : Type 0} (decode : String → Result Thrown V)
    (fetch : List BatchCall → Step (Response (Option (List (Option BatchResponse)))))
    (transactions : List String) (supported : Bool) (chunk : List Pending) where
  -- A request that the timer has aborted fails each read, and batches go on being sent.
  receive-post_aborted :
      (e : Thrown)
      → fetch (batch_calls transactions) ≡ record { outcome = err e; aborted = true }
      → receive decode supported chunk (post_simulation_batch fetch transactions)
        ≡ record { supported = supported; done = rejected batch_timeout chunk }
  unfolding receive post_simulation_batch
  receive-post_aborted e aborted = rw aborted refl

  -- A body that is no JSON sends each read of its own, and no batch is sent again.
  receive-post_no_json :
      (late : Bool) (status : ℕ) (e : Thrown)
      → is_ok status ≡ true
      → fetch (batch_calls transactions) ≡ record {
        outcome =
            ok (record { status = status; body = record { outcome = err e; aborted = false } });
        aborted = late;
      }
      → receive decode supported chunk (post_simulation_batch fetch transactions)
        ≡ incompatible decode chunk
  unfolding receive post_simulation_batch
  receive-post_no_json late status e fine answer = rw answer (rw fine refl)

  -- An answer with another status sends each read of its own when that status refuses batches, and
  -- fails each read when it does not.
  receive-post_status :
      (status : ℕ) (body : Step (Option (List (Option BatchResponse))))
      → is_ok status ≡ false
      → fetch (batch_calls transactions)
        ≡ record { outcome = ok (record { status = status; body = body }); aborted = false }
      → receive decode supported chunk (post_simulation_batch fetch transactions) ≡ (
          if refused_status (some status)
          then incompatible decode chunk
          else record { supported = supported; done = rejected (batch_http status) chunk })
  unfolding receive post_simulation_batch
  receive-post_status status body failed answer = rw answer (rw failed refl)
