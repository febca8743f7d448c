-- ===== src/Frontend/Live/Tests.antt =====
-- A page that is shown, hidden and left.
use stellar_quorum.Base.{
  ◌≡◌, refl, true, false, not, ◌&&◌, none, some, List, [], ◌∷◌, if◌then◌else◌,
}
use stellar_quorum.Frontend.Proposals.Fixture.{qip_001, qip_002, qip_003}
use stellar_quorum.Frontend.Live.{Poller, mount, tick, refresh, visibility_change, answer, unmount}
use stellar_quorum.Frontend.Live.Polling.{
  Event, ticks, answered, shows, unmounts, run, handle, last_read, run-last_read, tick-run,
}

abbrev first : Poller
first = mount qip_001 0 true

abbrev session : List Event
session =
    ticks
    ∷ answered (some qip_002) 11000
    ∷ shows false
    ∷ ticks
    ∷ shows true
    ∷ answered none 40000
    ∷ unmounts
    ∷ answered (some qip_003) 50000
    ∷ []

shown_last : (run session first).state.proposal ≡ qip_002
unfolding run handle mount tick visibility_change answer unmount
shown_last = refl

-- One request while shown, and one when shown again.
asked_twice : (run (ticks ∷ shows false ∷ ticks ∷ shows true ∷ []) first).requests ≡ 2
unfolding run handle mount tick visibility_change
asked_twice = refl

run-last_read_example : (run session first).state ≡ last_read first.cancelled first.state session
run-last_read_example = run-last_read session first

tick-run_example : tick (run session first) ≡ (
    if (run session first).visible && not (run session first).cancelled
    then refresh (run session first)
    else run session first)
tick-run_example = tick-run qip_001 0 true session
