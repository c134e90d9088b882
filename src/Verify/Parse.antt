-- ===== src/Verify/Parse.antt =====
-- `parse`, `decimal`, `HookData::parse` and `parse_intent` of
-- crates/xusdc-light-attester/src/verify.rs.
use miden_usdcx.Prelude.{
  ℕ, String, Bool, not, ◌&&◌, ◌||◌, all, leb, str_eq, if◌then◌else◌, Result, ok, err, ok_or, ◌>>=◌,
}
use miden_usdcx.Submission.Id.{codes}
use miden_usdcx.Verify.Types.{
  StructuredHookData, RawSpec, RawIntent, TransferSpec, Intent, HookData, Libraries, VerifyError,
  malformed_field,
}
use miden_usdcx.Verify.Encoding.{encode_hook}

abbrev is_digit : ℕ → Bool
is_digit c = leb b'0' c && leb c b'9'

module _ (l : Libraries) where
  -- Circle sends plain digits; the library's parser also reads other texts.
  unfoldable pub decimal : String → String → Result VerifyError ℕ
  decimal text field =
      if str_eq text "" || not (all is_digit (codes text))
      then err (malformed_field field)
      else ok_or (l.u256_from_digits text) (malformed_field field)

  b256 : String → String → Result VerifyError ℕ
  b256 text field = ok_or (l.parse_b256 text) (malformed_field field)

  unfoldable pub parse_hook : StructuredHookData → Result VerifyError HookData
  unfolding b256
  parse_hook raw = do
    remote_token ← b256 raw.remote_token "remoteToken"
    remote_depositor ← b256 raw.remote_depositor "remoteDepositor"
    contract ←
        ok_or (l.parse_address raw.forwarding_contract_address)
          (malformed_field "forwardingContractAddress")
    calldata ← ok_or (l.parse_bytes raw.forwarding_calldata) (malformed_field "forwardingCalldata")
    ok (record {
      remote_domain = raw.remote_domain;
      remote_token = remote_token;
      remote_depositor = remote_depositor;
      forwarding_contract = contract;
      forwarding_calldata = calldata;
    })

  unfoldable pub parse_spec : RawSpec → HookData → Result VerifyError TransferSpec
  unfolding b256
  parse_spec spec hook = do
    source_contract ← b256 spec.source_contract "sourceContract"
    destination_contract ← b256 spec.destination_contract "destinationContract"
    source_token ← b256 spec.source_token "sourceToken"
    destination_token ← b256 spec.destination_token "destinationToken"
    source_depositor ← b256 spec.source_depositor "sourceDepositor"
    destination_recipient ← b256 spec.destination_recipient "destinationRecipient"
    source_signer ← b256 spec.source_signer "sourceSigner"
    destination_caller ← b256 spec.destination_caller "destinationCaller"
    value ← decimal spec.value "value"
    salt ← b256 spec.salt "salt"
    hook_data ← encode_hook hook
    ok (record {
      version = spec.version;
      source_domain = spec.source_domain;
      destination_domain = spec.destination_domain;
      source_contract = source_contract;
      destination_contract = destination_contract;
      source_token = source_token;
      destination_token = destination_token;
      source_depositor = source_depositor;
      destination_recipient = destination_recipient;
      source_signer = source_signer;
      destination_caller = destination_caller;
      value = value;
      salt = salt;
      hook_data = hook_data;
    })

  unfoldable pub parse_intent : RawIntent → Result VerifyError (Intent × HookData)
  parse_intent raw = do
    hook ← parse_hook raw.spec.hook_data
    max_block_height ← decimal raw.max_block_height "maxBlockHeight"
    max_fee ← decimal raw.max_fee "maxFee"
    spec ← parse_spec raw.spec hook
    ok (record { max_block_height = max_block_height; max_fee = max_fee; spec = spec }, hook)
