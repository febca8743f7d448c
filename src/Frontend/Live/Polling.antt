-- ===== src/Frontend/Live/Polling.antt =====
-- When the page polls, and what it shows.
use stellar_quorum.Base.{
  ℕ, ◌≡◌, refl, ap, ◌∙◌, Bool, true, false, not, ◌&&◌, Option, none, some, List, [], ◌∷◌,
  if◌then◌else◌, arith,
}
use stellar_quorum.Frontend.Types.{Proposal}
use stellar_quorum.Frontend.Live.{
  LiveProposal, Poller, mount, refresh, tick, answer, visibility_change, unmount,
}

pub data Event : Type 0 where
  ticks : Event
  answered : Option Proposal → ℕ → Event
  shows : Bool → Event
  unmounts : Event

unfoldable pub handle : Event → Poller → Poller
handle ticks p = tick p
handle (answered found now) p = answer found now p
handle (shows visible) p = visibility_change visible p
handle unmounts p = unmount p

unfoldable pub run : List Event → Poller → Poller
unfolding handle
run [] p = p
run (e ∷ es) p = run es (handle e p)

-- What is shown, told from the events alone: the last proposal that was read while the component stood.
abbrev pub last_read : Bool → LiveProposal → List Event → LiveProposal
last_read gone shown [] = shown
last_read gone shown (ticks ∷ es) = last_read gone shown es
last_read gone shown (answered none now ∷ es) = last_read gone shown es
last_read gone shown (answered (some found) now ∷ es) =
    last_read gone (if gone then shown else record { proposal = found; last_updated = now }) es
last_read gone shown (shows visible ∷ es) = last_read gone shown es
last_read gone shown (unmounts ∷ es) = last_read true shown es

-- The two fields that the state depends on.
abbrev view : Poller → Bool × LiveProposal
view p = (p.cancelled, p.state)

abbrev last_view : List Event → Bool × LiveProposal → LiveProposal
last_view es (gone, shown) = last_read gone shown es

tick-view : (p : Poller) → view (tick p) ≡ view p
unfolding tick
tick-view p = ground arith

visibility_change-view : (visible : Bool) (p : Poller) → view (visibility_change visible p) ≡ view p
unfolding visibility_change
visibility_change-view visible p = ground arith

answer-view :
    (found : Proposal) (now : ℕ) (p : Poller)
    → view (answer (some found) now p) ≡ (
      p.cancelled,
      if p.cancelled then p.state else record { proposal = found; last_updated = now },
    )
unfolding answer
answer-view found now p = ground arith

-- The page shows the proposal that was read last while it stood, and when; failed reads and those that
-- are answered after it is gone change nothing.
pub run-last_read :
    (es : List Event) (p : Poller) → (run es p).state ≡ last_read p.cancelled p.state es
unfolding run handle answer unmount
run-last_read [] p = refl
run-last_read (ticks ∷ es) p = run-last_read es (tick p) ∙ ap (last_view es) (tick-view p)
run-last_read (answered none now ∷ es) p = run-last_read es (answer none now p)
run-last_read (answered (some found) now ∷ es) p =
    run-last_read es (answer (some found) now p) ∙ ap (last_view es) (answer-view found now p)
run-last_read (shows visible ∷ es) p =
    run-last_read es (visibility_change visible p)
    ∙ ap (last_view es) (visibility_change-view visible p)
run-last_read (unmounts ∷ es) p = run-last_read es (unmount p)

abbrev Polls : Poller → Type 0
Polls p = p.timer ≡ (p.visible && not p.cancelled)

handle-Polls : (e : Event) (p : Poller) → Polls p → Polls (handle e p)
unfolding handle tick answer visibility_change unmount
handle-Polls ticks p h = ground arith
handle-Polls (answered none now) p h = h
handle-Polls (answered (some found) now) p h = ground arith
handle-Polls (shows true) p h = ground arith
handle-Polls (shows false) p h = ground arith
handle-Polls unmounts p h = ground arith

run-Polls : (es : List Event) (p : Poller) → Polls p → Polls (run es p)
unfolding run
run-Polls [] p h = h
run-Polls (e ∷ es) p h = run-Polls es (handle e p) (handle-Polls e p h)

-- Whatever has happened since the first render, the next time that the interval is over the proposal is
-- read again if the document is visible and the component stands, and nothing is done otherwise.
pub tick-run :
    (initial : Proposal) (now : ℕ) (visible : Bool) (es : List Event)
    → let p = run es (mount initial now visible) in
      tick p ≡ (if p.visible && not p.cancelled then refresh p else p)
unfolding mount tick
tick-run initial now visible es = rw (run-Polls es (mount initial now visible) (ground arith))
