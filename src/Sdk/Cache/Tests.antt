-- ===== src/Sdk/Cache/Tests.antt =====
-- Runs of the read cache, and its properties at inputs that meet their premises.
use stellar_quorum.Base.{
  ℕ, ◌≤◌, ◌≡◌, refl, true, none, some, List, [], ◌∷◌, String, length, if◌then◌else◌, ◌==◌, ltb, ◌+◌,
}
use stellar_quorum.Base.Number.{nat, fraction}
use stellar_quorum.Base.Result.{ok, err}
use stellar_quorum.Sdk.Errors.{instance_of, error}
use stellar_quorum.Sdk.Types.{
  ReadCacheConfig, get_proposal, get_proposal_count, get_vote, get_balance,
}
use stellar_quorum.Sdk.Cache.Key.{
  Argument, bigint, text, number, key, method_name, json_array, method_index,
}
use stellar_quorum.Sdk.Cache.EntryMap.{get, set, delete, delete_first}
use stellar_quorum.Sdk.Cache.Actions.{Action, start, succeed, run}
use stellar_quorum.Sdk.Cache.Bounds.{limit, length-run-le-limit}
use stellar_quorum.Sdk.Cache.Freshness.{invalidated_read_changes_nothing}
use stellar_quorum.Sdk.Cache.Hits.{hit-Good, read_after_settle_ok}
use stellar_quorum.Sdk.Cache.Methods.{get-invalidate_method}
use stellar_quorum.Sdk.Cache.{
  ReadCache, hit, reserved, plain, new_cache, start_read, settle_ok, settle_err, invalidate_key,
  invalidate_method, look_up, evict_if, fresh, reserve, ttl_for, owns,
}

cache_code : Unit {0}
unfolding new_cache start_read look_up evict_if fresh reserve ttl_for settle_ok settle_err owns
    invalidate_key invalidate_method key method_name json_array get set delete delete_first run
cache_code = tt

abbrev small : ReadCacheConfig
small = record {
  enabled = true;
  ttl_ms = some (nat 100);
  method_ttl_ms = (get_vote, nat 7) ∷ [];
  max_entries = some (nat 2);
}

abbrev empty : ReadCache ℕ
empty = record { config = some small; entries = []; next_token = 0 }

key_run :
    key get_vote (bigint 12 ∷ text "G\"A" ∷ number 3 ∷ [])
    ≡ "getVote:[{\"bigint\":\"12\"},\"G\\\"A\",3]"
unfolding cache_code
key_run = refl

made : new_cache (some small) ≡ ok empty
unfolding cache_code
made = refl

refused :
    new_cache {V = ℕ} (some (record small { max_entries = some (fraction 1 "1.5") }))
    ≡ err (instance_of error "Cache maxEntries must be a positive integer")
unfolding cache_code
refused = refl

abbrev at_time : ℕ → ℕ → ℕ
at_time t n = t

abbrev proposal_7 : List Argument
proposal_7 = bigint 7 ∷ []

abbrev waiting : ReadCache ℕ
waiting = (start_read (at_time 0) get_proposal proposal_7 plain empty).1

starts :
    start_read (at_time 0) get_proposal proposal_7 plain empty
    ≡ (reserved (key get_proposal proposal_7) 0 100, waiting)
unfolding cache_code
starts = refl

abbrev busy : List (Action ℕ)
busy =
    start (at_time 0) get_proposal proposal_7 plain
    ∷ start (at_time 1) get_proposal_count [] plain
    ∷ start (at_time 2) get_balance (text "GA" ∷ []) plain
    ∷ []

length-run-le-limit_example : length (run busy empty).entries ≤ limit (some small)
length-run-le-limit_example = length-run-le-limit (some small) empty busy made

abbrev newer : List (Action ℕ)
newer = start (at_time 5) get_proposal proposal_7 plain ∷ []

invalidated_read_changes_nothing_example :
    (settle_ok 9 41
        (key get_proposal proposal_7)
        0
        100
        (run newer (invalidate_key get_proposal proposal_7 (run busy waiting)))
      ≡ run newer (invalidate_key get_proposal proposal_7 (run busy waiting)))
    × (settle_err
          (key get_proposal proposal_7)
          0
          (run newer (invalidate_key get_proposal proposal_7 (run busy waiting)))
        ≡ run newer (invalidate_key get_proposal proposal_7 (run busy waiting)))
invalidated_read_changes_nothing_example =
    invalidated_read_changes_nothing (at_time 0) get_proposal proposal_7 plain empty waiting
      (key get_proposal proposal_7) 0 100 busy newer 9 41 starts

abbrev answered : List (Action ℕ)
answered =
    start (at_time 0) get_proposal proposal_7 plain
    ∷ succeed 5 41 (key get_proposal proposal_7) 0 100
    ∷ []

abbrev Is41 : String → ℕ → Type 0
Is41 k v = v ≡ 41

hits :
    start_read (at_time 104) get_proposal proposal_7 plain (run answered empty)
    ≡ (hit (some 41), run answered empty)
unfolding cache_code
hits = refl

hit-Good_example : (v : ℕ) × (some 41 ≡ some v) × Is41 (key get_proposal proposal_7) v
hit-Good_example =
    hit-Good Is41 (some small) empty (run answered empty) answered (at_time 104) get_proposal
      proposal_7 plain (some 41) made (tt, (refl, tt)) hits

read_after_settle_ok_example :
    (start_read
      (at_time 105)
      get_proposal
      proposal_7
      plain
      (settle_ok 5 41 (key get_proposal proposal_7) 0 100 waiting)).0
    ≡ (if ltb 105 (5 + 100)
        then hit (some 41)
        else reserved (key get_proposal proposal_7) waiting.next_token 100)
read_after_settle_ok_example =
    read_after_settle_ok (at_time 0) (at_time 105) get_proposal proposal_7 plain empty waiting
      (key get_proposal proposal_7) 0 100 5 41 starts

get-invalidate_method_example :
    get (key get_proposal_count []) (invalidate_method get_proposal (run busy empty)).entries ≡ (
      if method_index get_proposal == method_index get_proposal_count
      then none
      else get (key get_proposal_count []) (run busy empty).entries)
get-invalidate_method_example =
    get-invalidate_method get_proposal get_proposal_count [] (run busy empty)
