-- ===== src/Sdk/Batch/Tests.antt =====
-- Runs of the batcher, and its properties at inputs that meet their premises.
use stellar_quorum.Base.{
  ℕ, String, ◌≡◌, refl, true, false, Option, none, some, List, [], ◌∷◌, Bool, All,
}
use stellar_quorum.Base.Number.{nat}
use stellar_quorum.Base.Result.{Result, ok, err}
use stellar_quorum.Base.Text.{decimal, decimal_onto}
use stellar_quorum.Sdk.Errors.{Thrown, instance_of, error}
use stellar_quorum.Sdk.Batch.{
  Pending, Settlement, SimulationBatcher, settled, fell_back, advance, receive, answers, enqueue,
  flush, continue, new_batcher,
}
use stellar_quorum.Sdk.Batch.Reply.{BatchResponse}
use stellar_quorum.Sdk.Batch.Accounting.{times, times_done}
use stellar_quorum.Sdk.Batch.Runs.{
  Action, request, microtask, reply, run, requested, run-settles_each_read,
}
use stellar_quorum.Sdk.Batch.Queue.{IsSound, run-IsSound}
use stellar_quorum.Sdk.Batch.Unsupported.{IsLeftOf, run_unsupported}
use stellar_quorum.Sdk.Batch.Post.{BatchCall, Step, Response, post_simulation_batch}
use stellar_quorum.Sdk.Batch.Routing.{IsRight, run-IsRight}

abbrev decoded : String → Result Thrown String
decoded x = ok x

abbrev read_of : ℕ → Pending
read_of t = record { ticket = t; transaction = "AAAA" }

abbrev answer : ℕ → String → Option BatchResponse
answer id x = some (record {
  jsonrpc = "2.0";
  id = nat id;
  error = none;
  result = some (record { error = none; results = x ∷ [] });
})

abbrev idle : Bool → SimulationBatcher String
idle supported = record {
  size = 2;
  pending = [];
  supported = supported;
  scheduled = 0;
  flights = [];
  log = [];
}

-- Three reads in chunks of two; the answers of the first chunk come in the other order.
abbrev in_order : List Action
in_order =
    request (read_of 7)
    ∷ request (read_of 8)
    ∷ request (read_of 9)
    ∷ microtask
    ∷ reply 0 (ok (some (answer 1 "b" ∷ answer 0 "a" ∷ [])))
    ∷ []

abbrev swapped_log : List (Pending × Settlement String)
swapped_log =
    (read_of 8, settled (ok "b")) ∷ (read_of 7, settled (ok "a")) ∷ (read_of 9, fell_back) ∷ []

in_order_log : (run decoded in_order (idle true)).log ≡ swapped_log
unfolding run enqueue flush continue advance receive answers
in_order_log = refl

-- Two answers with the same id.
abbrev confused : List Action
confused =
    request (read_of 7)
    ∷ request (read_of 8)
    ∷ microtask
    ∷ reply 0 (ok (some (answer 1 "b" ∷ answer 1 "a" ∷ [])))
    ∷ []

confused_log :
    (run decoded confused (idle true)).log ≡ (read_of 7, fell_back) ∷ (read_of 8, fell_back) ∷ []
unfolding run enqueue flush continue advance receive answers
confused_log = refl

new_batcher_of_two : new_batcher {V = String} (nat 2) ≡ ok (idle true)
unfolding new_batcher
new_batcher_of_two = refl

in_order_pending : (run decoded in_order (idle true)).pending ≡ []
unfolding run enqueue flush continue advance receive answers
in_order_pending = refl

in_order_flights : (run decoded in_order (idle true)).flights ≡ []
unfolding run enqueue flush continue advance receive answers
in_order_flights = refl

run-settles_each_read_example :
    times_done 8 (run decoded in_order (idle true)).log ≡ times 8 (requested in_order)
run-settles_each_read_example =
    run-settles_each_read decoded 8 (nat 2) (idle true) in_order new_batcher_of_two in_order_pending
      in_order_flights

run-IsSound_example : IsSound decoded (run decoded in_order (idle true))
run-IsSound_example = run-IsSound decoded (nat 2) (idle true) in_order new_batcher_of_two

-- A batcher with one batch on its way, and a read behind it.
abbrev flying : SimulationBatcher String
flying = record (idle false) {
  flights = record { waiting = read_of 1 ∷ read_of 2 ∷ []; rest = read_of 3 ∷ [] } ∷ [];
}

abbrev answered_late : List Action
answered_late = request (read_of 4) ∷ reply 0 (ok none) ∷ []

run_unsupported_example :
    ((run decoded answered_late flying).supported ≡ false)
    × IsLeftOf (run decoded answered_late flying).flights flying.flights
run_unsupported_example = run_unsupported decoded answered_late flying refl

abbrev asked : ℕ → String → Pending
asked t x = record { ticket = t; transaction = x }

-- Two reads; the provider gives back each transaction, in the other order.
abbrev echoed : List Action
echoed =
    request (asked 7 "a")
    ∷ request (asked 8 "b")
    ∷ microtask
    ∷ reply 0 (ok (some (answer 1 "b" ∷ answer 0 "a" ∷ [])))
    ∷ []

run-IsRight_example : All (IsRight decoded (λ x. x)) (run decoded echoed (idle true)).log
unfolding run enqueue flush continue advance receive answers
run-IsRight_example =
    run-IsRight decoded (λ x. x) (nat 2) (idle true) echoed new_batcher_of_two
      ((refl, (refl, tt)), tt)

-- A provider that knows no batches, and one that is slow.
abbrev no_route : List BatchCall → Step (Response (Option String))
no_route calls = record {
  outcome = ok (record { status = 404; body = record { outcome = ok none; aborted = false } });
  aborted = false;
}

abbrev slow : List BatchCall → Step (Response (Option String))
slow calls = record { outcome = err (instance_of error "AbortError"); aborted = true }

post_no_route :
    post_simulation_batch no_route ("a" ∷ [])
    ≡ err (record (instance_of error "Batch simulation HTTP 404") { status = some 404 })
unfolding post_simulation_batch decimal decimal_onto
post_no_route = refl

post_slow :
    post_simulation_batch slow ("a" ∷ []) ≡ err (instance_of error "Batch simulation timeout")
unfolding post_simulation_batch
post_slow = refl
