-- ===== src/Sdk/Client/Samples.antt =====
-- Values that the tests of the client share.
use stellar_quorum.Base.{false, none}
use stellar_quorum.Sdk.Types.{QuorumClientConfig}

abbrev pub plain_config : QuorumClientConfig
plain_config = record {
  rpc_url = "https://rpc";
  network_passphrase = "net";
  governance_contract_id = "CGOV";
  token_contract_id = none;
  request_timeout_ms = none;
  read_retry_attempts = none;
  retry_base_delay_ms = none;
  retry_jitter_ms = none;
  poll_interval_ms = none;
  confirmation_timeout_ms = none;
  cache = none;
  batch_simulation = false;
  simulation_batch_size = none;
}
