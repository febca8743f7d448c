-- ===== src/Sdk/Client/InsecureRpc/Tests.antt =====
-- Hosts tried against `allowsInsecureRpc`.
use stellar_quorum.Base.{String, ◌≡◌, refl, true, false, some}
use stellar_quorum.Base.Text.{strip_prefix}
use stellar_quorum.Sdk.Client.InsecureRpc.{allows_insecure_rpc, octets, digits_then}

abbrev unchanged : String → String
unchanged s = s

ipv4_loopback : allows_insecure_rpc unchanged (some "127.0.0.1") ≡ true
unfolding allows_insecure_rpc octets strip_prefix digits_then
ipv4_loopback = refl

three_octets : allows_insecure_rpc unchanged (some "127.0.1") ≡ false
unfolding allows_insecure_rpc octets strip_prefix digits_then
three_octets = refl

lookalike : allows_insecure_rpc unchanged (some "127.0.0.1.example.org") ≡ false
unfolding allows_insecure_rpc octets strip_prefix digits_then
lookalike = refl

long_octet : allows_insecure_rpc unchanged (some "127.0.0.1000") ≡ false
unfolding allows_insecure_rpc octets strip_prefix digits_then
long_octet = refl
