-- ===== src/Sdk/Client/Reads/Tests.antt =====
-- Cached reads, and their properties at inputs that meet their premises.
use stellar_quorum.Base.{ℕ, String, ◌≡◌, refl, true, Option, none, some, [], ◌∷◌, is_some, arith}
use stellar_quorum.Base.Number.{nat}
use stellar_quorum.Base.Result.{ok}
use stellar_quorum.Sdk.Types.{ReadCacheConfig, get_vote}
use stellar_quorum.Sdk.Cache.{
  ReadCache, reserved, plain, start_read, look_up, evict_if, fresh, reserve, ttl_for, method_ttl,
  sweep, make_room, reservation,
}
use stellar_quorum.Sdk.Cache.Key.{bigint, text, key, method_name, json_array}
use stellar_quorum.Sdk.Cache.EntryMap.{get, set, delete}
use stellar_quorum.Sdk.Client.Reads.{get_vote_through, has_voted}
use stellar_quorum.Sdk.Client.Reads.Votes.{has_voted-after_get_vote}

abbrev small : ReadCacheConfig
small = record { enabled = true; ttl_ms = some (nat 100); method_ttl_ms = []; max_entries = none }

abbrev empty : ReadCache (Option ℕ)
empty = record { config = some small; entries = []; next_token = 0 }

abbrev clock : ℕ → ℕ → ℕ
clock t n = t

abbrev vote_key : String
vote_key = "getVote:[{\"bigint\":\"7\"},\"GA\"]"

abbrev waiting : ReadCache (Option ℕ)
waiting = record { config = some small; entries = (vote_key, reservation 0) ∷ []; next_token = 1 }

starts :
    start_read (clock 0) get_vote (bigint 7 ∷ text "GA" ∷ []) plain empty
    ≡ (reserved vote_key 0 100, waiting)
unfolding start_read look_up evict_if fresh reserve ttl_for key method_name json_array get set
    delete method_ttl sweep make_room
starts = refl

has_voted-after_get_vote_example :
    (has_voted
        (clock 50)
        50
        7
        "GA"
        plain
        (ok none)
        (get_vote_through (clock 0) 5 7 "GA" plain (ok (some 1)) empty).cache
      ≡ ok (is_some {A = ℕ} (some 1)))
    × ((get_vote_through
          (clock 50)
          50
          7
          "GA"
          plain
          (ok none)
          (get_vote_through (clock 0) 5 7 "GA" plain (ok (some 1)) empty).cache).requests
        ≡ 0)
has_voted-after_get_vote_example =
    has_voted-after_get_vote (clock 0) (clock 50) 5 50 7 "GA" plain (some 1) (ok none) empty waiting
      vote_key 0 100 starts (omega arith)
