-- ===== src/Sdk/Client/SimulationErrors.antt =====
-- `mapGovernanceSimulationError` of sdk/src/client.ts.
pub mod Marks
pub mod HostErrors
use Prim.Native.Char.{code}
use Prim.Native.String.{[], ◌∷◌}
use stellar_quorum.Base.{
  ℕ, zero, suc, String, Bool, true, false, ◌||◌, ◌&&◌, not, Option, none, some, if◌then◌else◌, leb,
  ◌==◌,
}
use stellar_quorum.Base.Text.{◌<>◌, strip_prefix, includes, is_word}
use stellar_quorum.Sdk.Errors.{
  Thrown, ErrorClass, instance_of, error, text_of, proposal_not_found, voting_not_active,
  proposal_not_passed, timelock_not_expired, unauthorized,
}

-- ASCII white space: `\s` but for the characters beyond ASCII.
abbrev is_space : ℕ → Bool
is_space c = c == 32 || leb 9 c && leb c 13

-- `\b` behind a digit
abbrev at_boundary : String → Bool
at_boundary [] = true
at_boundary (c ∷ cs) = not (is_word c)

abbrev bounded : Option String → Bool
bounded none = false
bounded (some rest) = at_boundary rest

-- `/^\s*n\b/`. White space and `n` begin differently, so a shorter run of white space never matches.
unfoldable pub number_ahead : String → String → Bool
number_ahead n [] = bounded (strip_prefix n [])
number_ahead n (c ∷ cs) =
    let rest = number_ahead n cs in
    if is_space (code c) then rest else bounded (strip_prefix n (c ∷ cs))

abbrev pub behind_hash : String → Option String → Bool
behind_hash n none = false
behind_hash n (some rest) = number_ahead n rest

-- `/#\s*n\b/.test(s)`
unfoldable pub has_marker : String → String → Bool
has_marker n [] = false
has_marker n (c ∷ cs) =
    let later = has_marker n cs in behind_hash n (strip_prefix "#" (c ∷ cs)) || later

abbrev pub mentions : String → String → String → Bool
mentions number name message = has_marker number message || includes name message

abbrev failed : String → String → String
failed method detail = "Simulation of " <> method <> " failed: " <> detail

unfoldable pub map_governance_simulation_error : String → Thrown → Thrown
map_governance_simulation_error method raw =
    let message = text_of raw in
    if mentions "3" "ProposalNotFound" message
    then instance_of proposal_not_found "Proposal not found"
    else if mentions "4" "VotingNotActive" message
    then instance_of voting_not_active (failed method ("voting is not active (" <> message <> ")"))
    else if mentions "7" "ProposalNotPassed" message
    then instance_of proposal_not_passed
        (failed method ("proposal has not passed (" <> message <> ")"))
    else if mentions "12" "TimelockNotExpired" message
    then instance_of timelock_not_expired
        (failed method ("timelock not expired (" <> message <> ")"))
    else if mentions "2" "Unauthorized" message
    then instance_of unauthorized (failed method ("unauthorized (" <> message <> ")"))
    else instance_of error (failed method message)
