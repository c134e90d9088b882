-- ===== src/Verify/Types.antt =====
-- The data of crates/xusdc-light-attester/src/verify.rs and the wire types of circle.rs that it
-- reads, and the library calls that it makes.
use miden_usdcx.Prelude.{ℕ, String, Option, List, Bytes}

-- `StructuredHookData`, `TransferSpec` and `BurnIntent` as Circle sends them.
pub record StructuredHookData : Type 0 where
  pub remote_domain : ℕ
  pub remote_depositor : String
  pub remote_token : String
  pub forwarding_contract_address : String
  pub forwarding_calldata : String

pub record RawSpec : Type 0 where
  pub version : ℕ
  pub source_domain : ℕ
  pub destination_domain : ℕ
  pub source_contract : String
  pub destination_contract : String
  pub source_token : String
  pub destination_token : String
  pub source_depositor : String
  pub destination_recipient : String
  pub source_signer : String
  pub destination_caller : String
  pub value : String
  pub salt : String
  pub hook_data : StructuredHookData

pub record RawIntent : Type 0 where
  pub max_block_height : String
  pub max_fee : String
  pub spec : RawSpec

pub record PrepareBatch : Type 0 where
  pub burn_intents : List RawIntent
  pub encoded : String
  pub message_hash_to_sign : String

-- `eip712::TransferSpec` and `eip712::BurnIntent`.
pub record TransferSpec : Type 0 where
  pub version : ℕ
  pub source_domain : ℕ
  pub destination_domain : ℕ
  pub source_contract : ℕ
  pub destination_contract : ℕ
  pub source_token : ℕ
  pub destination_token : ℕ
  pub source_depositor : ℕ
  pub destination_recipient : ℕ
  pub source_signer : ℕ
  pub destination_caller : ℕ
  pub value : ℕ
  pub salt : ℕ
  pub hook_data : Bytes

pub record Intent : Type 0 where
  pub max_block_height : ℕ
  pub max_fee : ℕ
  pub spec : TransferSpec

pub record HookData : Type 0 where
  pub remote_domain : ℕ
  pub remote_token : ℕ
  pub remote_depositor : ℕ
  pub forwarding_contract : ℕ
  pub forwarding_calldata : Bytes

-- The calls that the two secondary legs carry.
pub record DepositForBurn : Type 0 where
  pub amount : ℕ
  pub destination_domain : ℕ
  pub mint_recipient : ℕ
  pub burn_token : ℕ
  pub destination_caller : ℕ
  pub max_fee : ℕ
  pub min_finality_threshold : ℕ
  pub hook_data : Bytes

pub record DepositToRemote : Type 0 where
  pub value : ℕ
  pub remote_domain : ℕ
  pub remote_recipient : ℕ
  pub local_token : ℕ
  pub max_fee : ℕ
  pub hook_data : Bytes

-- The calls into alloy and the Miden libraries: parsers of hex texts and of decimal digits, the ABI
-- codecs of the two calls, the EIP-712 digest, keccak256, and the bytes32 form of an account ID.
pub record Libraries : Type 0 where
  pub parse_b256 : String → Option ℕ
  pub parse_address : String → Option ℕ
  pub parse_bytes : String → Option Bytes
  pub u256_from_digits : String → Option ℕ
  pub decode_deposit_for_burn : Bytes → Option DepositForBurn
  pub encode_deposit_for_burn : DepositForBurn → Bytes
  pub decode_deposit_to_remote : Bytes → Option DepositToRemote
  pub encode_deposit_to_remote : DepositToRemote → Bytes
  pub signing_hash : Intent → ℕ
  pub keccak256 : Bytes → ℕ
  pub account_bytes32 : ℕ → ℕ
  -- `CircleDomain::MIDEN`
  pub miden_domain : ℕ

pub data VerifyError : Type 0 where
  wrong_count unsupported_destination unknown_salt bad_amount fee_too_high : VerifyError
  wrong_signer wrong_source_token wrong_source_domain caller_restricted : VerifyError
  too_small_to_forward payout_too_small_to_forward digest_mismatch encoded_mismatch : VerifyError
  wrong_burn_field forwarded_field malformed_field : String → VerifyError

pub record VerifiedWithdrawal : Type 0 where
  pub note_id : ℕ
  pub intent : RawIntent
  pub digest : ℕ
  pub transfer_spec_hash : ℕ
