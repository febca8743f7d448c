-- ===== src/Scripts/Seed/Ordering.antt =====
-- When the script finalizes and executes proposals, told from a record of what it sends and is told.
use text.Mathlib.Text.{◌==◌ as same_text}
use stellar_quorum.Base.{ℕ, ◌<◌, ◌≤◌, ◌≡◌, String, Bool, true, false, inr, ◌⊎◌, List, [], ◌∷◌}
use stellar_quorum.Base.Result.{Result, ok, err}
use stellar_quorum.Sdk.Errors.{Thrown}
use stellar_quorum.Scripts.Seed.{
  Value, address, u64, Call, Simulation, simulation_error, simulated, Network, read_only_source,
}
use stellar_quorum.Scripts.Seed.Deploying.{Decoding, Setup}
use stellar_quorum.Scripts.Seed.Keeping.{IsHarmless}

-- A call that is sent, a ledger that the network says is the latest, and what a simulation answers.
pub data Event (Native : Type 0) : Type 0 where
  sent : Call → Event Native
  saw : ℕ → Event Native
  told : Call → Native → Event Native

-- The newest event is the first.
abbrev pub Log : Type 0 → Type 0
Log Native = List (Event Native)

abbrev pub recorded_setup : {W L : Type 0} → Setup W → Setup (W × L)
recorded_setup setup = record {
  existing_governance = setup.existing_governance;
  existing_token = setup.existing_token;
  token_admin_secret = setup.token_admin_secret;
  voting_period = setup.voting_period;
  timelock_period = setup.timelock_period;
  token_wasm = setup.token_wasm;
  governance_wasm = setup.governance_wasm;
  wasm_exists = setup.wasm_exists;
  deploy = λ wasm key s. (((setup.deploy wasm key s.0).0, s.1), (setup.deploy wasm key s.0).1);
  address_of_secret = setup.address_of_secret;
  alice = setup.alice;
  alice_secret = setup.alice_secret;
  bob = setup.bob;
  carol = setup.carol;
  rounds = setup.rounds;
}

abbrev pub proposal_call : String → ℕ → Call
proposal_call governance id = record {
  contract = governance;
  method = "get_proposal";
  arguments = u64 id ∷ [];
  source = read_only_source;
}

module _ {Native : Type 0} where
  abbrev pub note_ledger : Result Thrown ℕ → Log Native → Log Native
  note_ledger (err e) log = log
  note_ledger (ok n) log = saw n ∷ log

  abbrev pub note_answer : Call → Result Thrown (Simulation Native) → Log Native → Log Native
  note_answer c (err e) log = log
  note_answer c (ok (simulation_error e)) log = log
  note_answer c (ok (simulated entries v)) log = told c v ∷ log

  -- The network with a record of it.
  abbrev pub recorded : {W : Type 0} → Network W Native → Network (W × Log Native) Native
  recorded net = record {
    friendbot_url = net.friendbot_url;
    now = λ s. net.now s.0;
    sleep = λ ms s. (net.sleep ms s.0, s.1);
    latest_ledger = λ s. (
      ((net.latest_ledger s.0).0, note_ledger (net.latest_ledger s.0).1 s.1),
      (net.latest_ledger s.0).1,
    );
    friendbot = λ a s. (((net.friendbot a s.0).0, s.1), (net.friendbot a s.0).1);
    get_account = λ a s. (((net.get_account a s.0).0, s.1), (net.get_account a s.0).1);
    simulate = λ c s. (
      ((net.simulate c s.0).0, note_answer c (net.simulate c s.0).1 s.1),
      (net.simulate c s.0).1,
    );
    authorize = λ e k n s. (((net.authorize e k n s.0).0, s.1), (net.authorize e k n s.0).1);
    send = λ c auth s. (((net.send c auth s.0).0, sent c ∷ s.1), (net.send c auth s.0).1);
    get_transaction = λ h s. (((net.get_transaction h s.0).0, s.1), (net.get_transaction h s.0).1);
  }

  abbrev pub Recorded : Event Native → Log Native → Type 0
  Recorded e [] = ⊥
  Recorded e (x ∷ log) = (x ≡ e) ⊎ Recorded e log

  module _ (decoding : Decoding Native) where
    -- A proposal was read, and a ledger past its voting window was seen.
    pub record IsClosed (log : Log Native) : Type 0 where
      pub governance : String
      pub id : ℕ
      pub answer : Native
      pub ledger : ℕ
      pub was_read : Recorded (told (proposal_call governance id) answer) log
      pub was_seen : Recorded (saw ledger) log
      pub past : (decoding.as_proposal answer).end_ledger < ledger

    -- The proposal that is executed was read, and a ledger at the end of its timelock was seen.
    pub record IsUnlocked (arguments : List Value) (log : Log Native) : Type 0 where
      pub governance : String
      pub executor : String
      pub id : ℕ
      pub answer : Native
      pub ledger : ℕ
      pub executes : arguments ≡ address executor ∷ u64 id ∷ []
      pub was_read : Recorded (told (proposal_call governance id) answer) log
      pub was_seen : Recorded (saw ledger) log
      pub unlocked : (decoding.as_proposal answer).queue_ledger ≤ ledger

    abbrev Needs : Bool → Type 0 → Type 0
    Needs true P = P
    Needs false P = Unit

    abbrev pub Allowed : Call → Log Native → Type 0
    Allowed c log =
        Needs (same_text c.method "finalize") (IsClosed log)
        × Needs (same_text c.method "execute") (IsUnlocked c.arguments log)

    -- Each call that was sent was allowed when it was.
    abbrev pub IsOrdered : Log Native → Type 0
    IsOrdered [] = Unit
    IsOrdered (sent c ∷ log) = Allowed c log × IsOrdered log
    IsOrdered (saw n ∷ log) = IsOrdered log
    IsOrdered (told c v ∷ log) = IsOrdered log

    pub IsClosed-grows : (e : Event Native) (log : Log Native) → IsClosed log → IsClosed (e ∷ log)
    IsClosed-grows e log h = record {
      governance = h.governance;
      id = h.id;
      answer = h.answer;
      ledger = h.ledger;
      was_read = inr h.was_read;
      was_seen = inr h.was_seen;
      past = h.past;
    }

    pub IsUnlocked-grows :
        (arguments : List Value) (e : Event Native) (log : Log Native)
        → IsUnlocked arguments log
        → IsUnlocked arguments (e ∷ log)
    IsUnlocked-grows arguments e log h = record {
      governance = h.governance;
      executor = h.executor;
      id = h.id;
      answer = h.answer;
      ledger = h.ledger;
      executes = h.executes;
      was_read = inr h.was_read;
      was_seen = inr h.was_seen;
      unlocked = h.unlocked;
    }

  module _ {W : Type 0} (net : Network W Native) (J : Log Native → Type 0) where
    abbrev pub Holds : W × Log Native → Type 0
    Holds s = J s.1

    -- What outlasts what the script is told.
    pub record Lasts : Type 0 where
      pub on_saw : (n : ℕ) (log : Log Native) → J log → J (saw n ∷ log)
      pub on_told : (c : Call) (v : Native) (log : Log Native) → J log → J (told c v ∷ log)

    module _ (lasts : Lasts) where
      note_ledger-J : (r : Result Thrown ℕ) (log : Log Native) → J log → J (note_ledger r log)
      note_ledger-J (err e) log j = j
      note_ledger-J (ok n) log j = lasts.on_saw n log j

      note_answer-J :
          (c : Call) (r : Result Thrown (Simulation Native)) (log : Log Native)
          → J log
          → J (note_answer c r log)
      note_answer-J c (err e) log j = j
      note_answer-J c (ok (simulation_error e)) log j = j
      note_answer-J c (ok (simulated entries v)) log j = lasts.on_told c v log j

      pub recorded-IsHarmless : IsHarmless Holds (recorded net)
      recorded-IsHarmless = record {
        sleep = λ ms s j. j;
        latest_ledger = λ s j. note_ledger-J (net.latest_ledger s.0).1 s.1 j;
        friendbot = λ a s j. j;
        get_account = λ a s j. j;
        simulate = λ c s j. note_answer-J c (net.simulate c s.0).1 s.1 j;
        authorize = λ e k n s j. j;
        get_transaction = λ h s j. j;
      }
