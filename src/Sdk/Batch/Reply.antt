-- ===== src/Sdk/Batch/Reply.antt =====
-- The replies of the provider to a batch, in sdk/src/batch.ts: how each is read, and which replies
-- show that it takes no batches.
use text.Mathlib.Text.{◌==◌ as same_text}
use stellar_quorum.Base.{
  ℕ, suc, String, Bool, true, false, not, ◌||◌, Option, none, some, List, [], ◌∷◌, if◌then◌else◌,
  ltb, ◌==◌, any,
}
use stellar_quorum.Base.Number.{Number, nat, negative}
use stellar_quorum.Base.Result.{Result, ok, err}
use stellar_quorum.Base.Text.{◌<>◌}
use stellar_quorum.Sdk.Errors.{Thrown, instance_of, error, plain, number}

pub record RpcError : Type 0 where
  pub code : Number
  pub message : Option String

-- `results` holds the `xdr` of each.
pub record Simulated : Type 0 where
  pub error : Option String
  pub results : List String

-- An id that is no number at all is `nan`.
pub record BatchResponse : Type 0 where
  pub jsonrpc : String
  pub id : Number
  pub error : Option RpcError
  pub result : Option Simulated

-- The ids that the test of the ids accepts. The others are one member of the set: they are refused
-- next, whatever the size of the set is.
abbrev pub whole_id : Number → Option ℕ
whole_id (nat n) = some n
whole_id _ = none

abbrev pub id_of : Option BatchResponse → Option ℕ
id_of none = none
id_of (some r) = whole_id r.id

abbrev pub same_id : Option ℕ → Option ℕ → Bool
same_id none none = true
same_id (some a) (some b) = a == b
same_id _ _ = false

-- `new Set(ids).size`
abbrev pub set_size : List (Option ℕ) → ℕ
set_size [] = 0
set_size (x ∷ xs) = let rest = set_size xs in if any (same_id x) xs then rest else suc rest

abbrev pub has_code : String → Option RpcError → Bool
has_code s none = false
has_code s (some e) = elim e.code [ negative t ↦ same_text t s | _ ↦ false ]

abbrev pub id_below : ℕ → Option ℕ → Bool
id_below n none = false
id_below n (some i) = ltb i n

abbrev pub is_bad : ℕ → Option BatchResponse → Bool
is_bad n none = true
is_bad n (some r) =
    not (same_text r.jsonrpc "2.0")
    || not (id_below n (whole_id r.id))
    || has_code "-32600" r.error
    || has_code "-32601" r.error

abbrev pub refused_status : Option ℕ → Bool
refused_status none = false
refused_status (some s) =
    s == 400 || s == 404 || s == 405 || s == 413 || s == 415 || s == 422 || s == 501

-- `if (response.error) throw response.error`: the object itself is thrown.
abbrev pub rpc_error_thrown : RpcError → Thrown
rpc_error_thrown e = record {
  class = plain "[object Object]";
  message = e.message;
  response_status = none;
  status = none;
  code = some (number e.code);
}

abbrev pub no_result : Thrown
no_result = instance_of error "Simulation of get_proposal returned no result"

abbrev pub first_result : List String → Result Thrown String
first_result [] = err no_result
first_result (x ∷ xs) = if same_text x "" then err no_result else ok x

abbrev pub simulated_xdr : Option Simulated → Result Thrown String
simulated_xdr none = err no_result
simulated_xdr (some s) = elim s.error [
  | none ↦ first_result s.results
  | some e ↦
      if same_text e ""
      then first_result s.results
      else err (instance_of error ("Simulation of get_proposal failed: " <> e))
]

abbrev pub response_xdr : BatchResponse → Result Thrown String
response_xdr r = elim r.error [ some e ↦ err (rpc_error_thrown e) | none ↦ simulated_xdr r.result ]
