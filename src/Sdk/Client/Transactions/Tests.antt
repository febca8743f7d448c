-- ===== src/Sdk/Client/Transactions/Tests.antt =====
-- The builders at a network that refuses.
use stellar_quorum.Base.{String, ◌≡◌, refl, none, [], ◌∷◌}
use stellar_quorum.Base.Result.{ok, err, traverse}
use stellar_quorum.Sdk.Errors.Codes.{GovernanceError, governance_code}
use stellar_quorum.Sdk.Client.SimulationErrors.HostErrors.{IsRefusal, codes_text}
use stellar_quorum.Sdk.Errors.{Thrown, instance_of, error, text_of}
use stellar_quorum.Base.Text.{decimal, decimal_onto, includes, includes_by, strip_by}
use stellar_quorum.Sdk.Client.Transactions.{Native, Network}
use stellar_quorum.Sdk.Client.Transactions.Refusals.{
  execute, values_of, build, HasClassOf, build-refused,
}

abbrev locked : Thrown
locked =
    instance_of error
      "HostError: Error(Contract, #12)\n\nEvent log (newest first):\n   0: [Diagnostic Event] topics:[error, Error(Contract, #12)], data:\"escalating error\""

locked-IsRefusal : IsRefusal locked GovernanceError.timelock_not_expired
unfolding codes_text text_of includes includes_by strip_by decimal decimal_onto governance_code
locked-IsRefusal = record {
  first = "HostError: ";
  next = "\n\nEvent log (newest first):\n   0: [Diagnostic Event] topics:[error, ";
  more = "], data:\"escalating error\"" ∷ [];
  reads = refl;
  unmarked = (refl, (refl, (refl, tt)));
  unnamed = (refl, (refl, (refl, (refl, (refl, tt)))));
}

abbrev locked_network : Network Native String (String × String)
locked_network = record {
  encode = λ v. ok v;
  account = λ s. ok s;
  build = λ account contract method values. (contract, method);
  prepare = λ tx. err locked;
}

encoded :
    traverse locked_network.encode (values_of (execute "GA") 7) ≡ ok (values_of (execute "GA") 7)
unfolding traverse
encoded = refl

build-refused_example :
    HasClassOf locked_network "CGOV" none GovernanceError.timelock_not_expired
      (build locked_network "CGOV" none (execute "GA") 7 none)
build-refused_example =
    build-refused locked_network "CGOV" none (execute "GA") 7 none (values_of (execute "GA") 7) "GA"
      locked GovernanceError.timelock_not_expired encoded refl refl locked-IsRefusal
