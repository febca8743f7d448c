-- ===== src/Scripts/Seed/Tests.antt =====
-- Runs of the script, on a network whose ledgers close every second.
use text.Mathlib.Text.{◌==◌ as same_text}
use stellar_quorum.Base.{
  ℕ, ◌+◌, ◌*◌, ◌≡◌, refl, String, true, false, none, some, List, [], ◌∷◌, if◌then◌else◌, arith,
}
use stellar_quorum.Base.Result.{ok}
use stellar_quorum.Base.Text.{decimal, decimal_onto}
use stellar_quorum.Scripts.Seed.{
  AuthEntry, source_account, address_v1, simulated, success, Network, sign_auth_entries,
  wait_for_ledger, ledger_timeout_ms, fund_account, invoke, read, confirm, await_ledger,
}
use stellar_quorum.Scripts.Seed.Deploying.{
  variant, Decoding, Setup, parse_contract_id, last_id, get_proposal, get_config, use_existing,
}
use stellar_quorum.Scripts.Seed.Main.{
  main, distribute, check_threshold, create_proposal, vote, open_proposals, finalize_proposals,
  execute_proposal, open_last, read_each, drive,
}
use stellar_quorum.Scripts.Seed.Ordering.{sent, saw, told, Log, recorded, recorded_setup, IsOrdered}
use stellar_quorum.Scripts.Seed.Order.{main-IsOrdered}
use stellar_quorum.Scripts.Seed.Waiting.{Advances, Ends, wait_for_ledger-Ends}
use stellar_quorum.Scripts.Seed.Signing.{AllCovered, sign_auth_entries_covers}

data Answer : Type 0 where
  config : Answer
  number : ℕ → Answer
  proposal : Answer

abbrev answer_to : String → Answer
answer_to method =
    if same_text method "get_config"
    then config
    else if same_text method "get_proposal"
    then proposal
    else number 500000

-- The world is the latest ledger.
abbrev quick : Network ℕ Answer
quick = record {
  friendbot_url = "http://localhost:8000/friendbot";
  now = λ w. w * 1000;
  sleep = λ ms w. w + ms;
  latest_ledger = λ w. (w, ok w);
  friendbot = λ a w. (w, ok (record { is_ok = true; status = 200; text = "" }));
  get_account = λ a w. (w, ok tt);
  simulate = λ c w. (w, ok (simulated [] (answer_to c.method)));
  authorize = λ e k n w. (w, ok (record { credentials = source_account; invocation = "signed" }));
  send = λ c auth w. (w, ok (record { status = "PENDING"; hash = "h"; error_result = none }));
  get_transaction = λ h w. (w + 1, ok success);
}

abbrev decoding : Decoding Answer
decoding = record {
  as_config = λ v. record { token = "T"; voting_period = 30; proposal_threshold = 100000 };
  as_number = λ v. elim v [ number n ↦ n | _ ↦ 0 ];
  as_proposal = λ v. record {
    id = 1;
    title = "";
    status = "";
    start_ledger = 10;
    end_ledger = 40;
    queue_ledger = 45;
    for_votes = 0;
    against_votes = 0;
    abstain_votes = 0;
    quorum_required = 0;
  };
  as_status = λ v. variant "Active";
}

abbrev existing : Setup ℕ
existing = record {
  existing_governance = "G";
  existing_token = "";
  token_admin_secret = "";
  voting_period = 30;
  timelock_period = 2;
  token_wasm = "";
  governance_wasm = "";
  wasm_exists = λ wasm. false;
  deploy = λ wasm secret w. (w, ok "");
  address_of_secret = λ secret. ok "D";
  alice = "A";
  alice_secret = "";
  bob = "B";
  carol = "C";
  rounds = ledger_timeout_ms + 1;
}

id_after_label :
    parse_contract_id "Contract ID: CA3D5KRYM6CB7OWQ6TWYRR3Z4T7GNZLKERYNZGGA5SOAOPIFY6YQGAXE\n"
    ≡ some "CA3D5KRYM6CB7OWQ6TWYRR3Z4T7GNZLKERYNZGGA5SOAOPIFY6YQGAXE"
unfolding parse_contract_id last_id
id_after_label = refl

abbrev methods : Log Answer → List String
methods [] = []
methods (sent c ∷ log) = c.method ∷ methods log
methods (saw n ∷ log) = methods log
methods (told c v ∷ log) = methods log

-- The newest call is the first.
sent_in_order :
    methods (main (recorded quick) decoding (recorded_setup existing) (1, [])).0.1
    ≡ "vote" ∷ "vote" ∷ "create_proposal" ∷ "execute" ∷ "finalize" ∷ "finalize" ∷ "finalize"
      ∷ "vote" ∷ "create_proposal" ∷ "vote" ∷ "create_proposal" ∷ "vote" ∷ "create_proposal" ∷ []
unfolding main fund_account use_existing get_config read distribute check_threshold drive
    open_proposals create_proposal vote finalize_proposals execute_proposal open_last read_each
    get_proposal invoke confirm await_ledger wait_for_ledger sign_auth_entries decimal decimal_onto
sent_in_order = refl

main-IsOrdered_example :
    IsOrdered decoding (main (recorded quick) decoding (recorded_setup existing) (1, [])).0.1
main-IsOrdered_example = main-IsOrdered quick decoding existing 1

quick-Advances : Advances quick
quick-Advances = record { sleeps = λ ms w. omega arith; asks = λ w. omega arith }

wait_for_ledger-Ends_example :
    Ends quick 40
      (1 * 1000 + ledger_timeout_ms)
      (wait_for_ledger quick (ledger_timeout_ms + 1) 40 1)
wait_for_ledger-Ends_example =
    wait_for_ledger-Ends quick quick-Advances 40 (ledger_timeout_ms + 1) 1 (omega arith)

abbrev own : AuthEntry
own = record { credentials = address_v1 "A"; invocation = "vote" }

abbrev other : AuthEntry
other = record { credentials = address_v1 "B"; invocation = "vote" }

abbrev signed : AuthEntry
signed = record { credentials = source_account; invocation = "signed" }

sign_auth_entries_covers_example :
    AllCovered quick ("A" ∷ "B" ∷ []) "A" (own ∷ other ∷ []) (own ∷ signed ∷ [])
unfolding sign_auth_entries
sign_auth_entries_covers_example =
    sign_auth_entries_covers quick ("A" ∷ "B" ∷ []) "A" (own ∷ other ∷ []) (own ∷ signed ∷ []) 7 7
      refl
