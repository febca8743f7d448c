-- ===== src/Frontend/Live.antt =====
-- frontend/lib/useLiveProposal.ts: a proposal that is read again while its page is visible. A read is two
-- steps, its request and its answer; `requests` counts those without an answer.
pub mod Polling
mod Tests
use stellar_quorum.Base.{ℕ, suc, ◌-◌, Bool, true, false, not, Option, none, some, if◌then◌else◌}
use stellar_quorum.Frontend.Types.{Proposal}

abbrev pub live_poll_interval_ms : ℕ
live_poll_interval_ms = 10000

pub record LiveProposal : Type 0 where
  pub proposal : Proposal
  pub last_updated : ℕ

-- `visible` is the document's state, `timer` whether the interval runs.
pub record Poller : Type 0 where
  pub state : LiveProposal
  pub cancelled : Bool
  pub visible : Bool
  pub timer : Bool
  pub requests : ℕ

-- `start` and `stop`
abbrev start : Poller → Poller
start p = record p { timer = true }

abbrev stop : Poller → Poller
stop p = record p { timer = false }

-- `refresh` up to its request.
abbrev pub refresh : Poller → Poller
refresh p = record p { requests = suc p.requests }

-- The effect of the first render.
unfoldable pub mount : Proposal → ℕ → Bool → Poller
mount initial now visible = record {
  state = record { proposal = initial; last_updated = now };
  cancelled = false;
  visible = visible;
  timer = visible;
  requests = 0;
}

-- The interval fires while it runs.
unfoldable pub tick : Poller → Poller
tick p = if p.timer then refresh p else p

-- What a request comes to: none for a failure, or a response that is not ok.
unfoldable pub answer : Option Proposal → ℕ → Poller → Poller
answer none now p = record p { requests = p.requests - 1 }
answer (some found) now p =
    if p.cancelled then record p { requests = p.requests - 1 } else record p {
      requests = p.requests - 1;
      state = record { proposal = found; last_updated = now };
    }

-- The document becomes visible or hidden; the listener is gone once the component is.
unfoldable pub visibility_change : Bool → Poller → Poller
visibility_change visible p =
    if p.cancelled
    then record p { visible = visible }
    else if visible
    then start (refresh (record p { visible = true }))
    else stop (record p { visible = false })

unfoldable pub unmount : Poller → Poller
unmount p = record p { cancelled = true; timer = false }
