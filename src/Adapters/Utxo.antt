-- ===== src/Adapters/Utxo.antt =====
-- internal/adapters/utxo_protocol_base.go, the health check of Bitcoin, Litecoin, Dash and Dogecoin nodes, and
-- the checks of the credentials for their RPC. Hashes, hexadecimal digits and URLs are parameters.
pub mod Budget
use Prim.Native.String.{◌++◌}
use chainplane.Prelude.{
  ℕ, String, Bool, true, false, Option, none, some, ◌&&◌, ◌||◌, not, str_eq, if◌then◌else◌,
}
use chainplane.Errors.{Result, ok, err, check_failed}
use chainplane.Adapters.Status.{SyncStatus}
use chainplane.Adapters.Session.{Node, Query, pure, ◌>>=◌}
use chainplane.Adapters.Payloads.{BlockchainInfo, AdapterTools}
use chainplane.Adapters.Rpc.{
  RpcResult, answered, failed, is_transient_rpc_error, busy, call_rpc, call_rpc_with_retry,
}

-- RPCCredentials
pub record RpcCredentials : Type 0 where
  pub user : String
  pub password : String
  pub salt : String

-- The fields of utxoProtocolAdapter that the check reads.
pub record UtxoAdapter : Type 0 where
  pub stall_policy : String
  pub use_retry : Bool

-- IsZero
unfoldable pub is_zero : RpcCredentials → Bool
is_zero c = str_eq c.user "" && str_eq c.password ""

-- The texts of credentials: strings.ContainsAny with ":$", strings.ContainsFunc with isSpaceOrControl,
-- hex.DecodeString without an error, the digits of SHA-256 and of HMAC-SHA256 with a key; net/url.
pub record CredentialTexts : Type 0 where
  pub has_separator : String → Bool
  pub has_space_or_control : String → Bool
  pub is_hex : String → Bool
  pub sha256_hex : String → String
  pub hmac_sha256_hex : String → String → String
  pub first_bytes : ℕ → String → String
  pub parse_url : String → Option String
  pub with_user : String → String → String → String

module _ (c : CredentialTexts) where
  -- Validate: whether there is no error
  unfoldable pub is_valid_credentials : RpcCredentials → Bool
  is_valid_credentials creds =
      if str_eq creds.user "" || str_eq creds.password ""
      then false
      else if c.has_separator creds.user || c.has_space_or_control creds.user
      then false
      else if not (str_eq creds.salt "")
      then c.is_hex creds.salt
      else true

  -- The salt of RPCAuth.
  unfoldable pub salt_of : RpcCredentials → String
  salt_of creds =
      if str_eq creds.salt ""
      then c.first_bytes 32 (c.sha256_hex (creds.user ++ creds.password))
      else creds.salt

  -- RPCAuth
  unfoldable pub rpc_auth : RpcCredentials → String
  rpc_auth creds =
      creds.user ++ ":" ++ salt_of creds ++ "$" ++ c.hmac_sha256_hex (salt_of creds) creds.password

  -- The rpcauth line of ConfigTemplateWithCredentials, "" for none; no config at all for bad credentials.
  unfoldable pub config_rpc_auth : RpcCredentials → Option String
  config_rpc_auth creds =
      if is_zero creds
      then some ""
      else if is_valid_credentials creds
      then some (rpc_auth creds)
      else none

  -- authenticatedURL
  unfoldable pub authenticated_url : String → RpcCredentials → Option String
  authenticated_url url creds = elim (c.parse_url url) [
    | none ↦ none
    | some parsed ↦
        some (if not (is_zero creds) then c.with_user parsed creds.user creds.password else parsed)
  ]

module _ {F : Type 0} (tools : AdapterTools F) where
  -- `info.VerificationProgress < …`
  abbrev pub below : F → F → Bool
  below limit progress = tools.floats.float.greater limit progress

  -- The test of the stall policy.
  unfoldable pub is_stall_exempt : UtxoAdapter → Bool → F → Bool
  is_stall_exempt u syncing progress =
      if str_eq u.stall_policy "synced-exempt"
      then not syncing
      else if str_eq u.stall_policy "ibd-exempt"
      then syncing && below (tools.floats.float.decimal 95 2) progress
      else false

  -- The end of utxoHealthCheck.
  unfoldable pub utxo_status : UtxoAdapter → BlockchainInfo F → ℕ → SyncStatus F
  utxo_status u info peers =
      let syncing = below (tools.floats.float.decimal 999 3) info.verification_progress in
      record {
        is_syncing = syncing;
        current_block = info.blocks;
        highest_block = info.headers;
        peers = peers;
        progress =
            tools.floats.float.times info.verification_progress (tools.floats.float.decimal 100 0);
        stall_exempt = is_stall_exempt u syncing info.verification_progress;
      }

  -- The number of connections in an answer to getconnectioncount.
  unfoldable pub connections_of : RpcResult → ℕ
  connections_of (failed _) = 0
  connections_of (answered r) = elim (tools.json.int32 r) [ none ↦ 0 | some n ↦ n ]

  module _ (node : Node) (url : String) (u : UtxoAdapter) where
    -- The part of utxoHealthCheck that follows getblockchaininfo.
    unfoldable pub utxo_from_info : Option (BlockchainInfo F) → Query (Result (SyncStatus F))
    utxo_from_info none = pure (err check_failed)
    utxo_from_info (some info) = call_rpc tools node url "getconnectioncount" "" >>= λ r.
        pure (ok (utxo_status u info (connections_of r)))

    unfoldable pub utxo_from_answer : RpcResult → Query (Result (SyncStatus F))
    utxo_from_answer (failed e) = pure (
        if u.use_retry && is_transient_rpc_error tools.texts e
        then ok (busy tools (tools.floats.float.decimal 0 0))
        else err check_failed)
    utxo_from_answer (answered r) = utxo_from_info (tools.json.blockchain_info r)

    -- The call of getblockchaininfo.
    unfoldable pub ask_info : Query RpcResult
    ask_info s =
        if u.use_retry
        then call_rpc_with_retry tools node url "getblockchaininfo" "" 2 s
        else call_rpc tools node url "getblockchaininfo" "" s

    -- utxoHealthCheck
    unfoldable pub utxo_health_check : Query (Result (SyncStatus F))
    utxo_health_check = ask_info >>= utxo_from_answer

  -- HealthCheckWithCredentials
  unfoldable pub health_check_with_credentials :
      CredentialTexts → Node → String → UtxoAdapter → RpcCredentials → Query (Result (SyncStatus F))
  health_check_with_credentials c node url u creds = elim (authenticated_url c url creds) [
    | none ↦ pure (err check_failed)
    | some auth_url ↦ utxo_health_check node auth_url u
  ]
