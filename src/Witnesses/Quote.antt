-- ===== src/Witnesses/Quote.antt =====
-- A prepared withdrawal of Circle that passes the check, and the concrete cases of the theorems on
-- it, on a reply's size and on the limit's clock.
use miden_usdcx.Prelude.{
  ℕ, ◌^◌, ◌<◌, ◌≤◌, ◌+◌, ◌*◌, ◌≡◌, ◌≢◌, ◌↔◌, refl, arith, true, Option, none, some, [], ◌∷◌, String,
  str_eq, if◌then◌else◌, ok, bytes_eq, length,
}
use miden_usdcx.Circle.{Chunks, end, chunk, RawResponse, max_response_body_bytes, read_reply}
use miden_usdcx.Circle.Cap.{joined, is_whole, read_reply_lem}
use miden_usdcx.Circle.Status.{too_many_requests}
use miden_usdcx.Config.{
  Config, WithdrawalLimit, forwarding_max_fee, retry_at, retry_at_bounds, nanos_per_second,
}
use miden_usdcx.Verify.Types.{
  RawIntent, PrepareBatch, Intent, HookData, Libraries, VerifiedWithdrawal,
}
use miden_usdcx.Verify.Encoding.{
  encode_intent, encode_spec, spec_fields, encode_hook, append_with_length, be_bytes, hash_spec,
}
use miden_usdcx.Verify.Parse.{parse_intent, parse_hook, parse_spec, decimal}
use miden_usdcx.Verify.Legs.{arc_usdc}
use miden_usdcx.Verify.{
  only, verify, verify_intent, verify_route, verify_direct_leg, verify_hook, verify_amounts,
  verify_source, verify_signed, verify_payout, is_forwarded, is_redeposit, fee_ceiling,
}
use miden_usdcx.Verify.Sound.{IsAuthorized, verify-IsAuthorized}
use miden_usdcx.Verify.Route.{Pays, verify_route-Pays}
use miden_usdcx.Witnesses.Data.{burn, value_or}

abbrev pub config : Config
config = record {
  faucet_account_id = 9;
  max_withdrawal_fee = 100;
  max_withdrawal_fee_bps = 50;
  cctp_forwarding = record { max_fee = 20; forwarder = 11; token_messenger = 12 };
  xreserve_deposit_max_fee = none;
  poll_interval = 1000000000;
  withdrawal_limit = none;
  trusted_anchor_block = 0;
  trusted_anchor_commitment = 0;
  minimum_finality_depth_blocks = 2;
  expected_signing_public_keys_hex = "0xaa" ∷ "0xbb" ∷ [];
}

abbrev raw : RawIntent
raw = record {
  max_block_height = "999";
  max_fee = "40";
  spec = record {
    version = 1;
    source_domain = 26;
    destination_domain = 0;
    source_contract = "0x01";
    destination_contract = "0x02";
    source_token = "usdc";
    destination_token = "0x03";
    source_depositor = "0x04";
    destination_recipient = "to";
    source_signer = "0x04";
    destination_caller = "0x";
    value = "960";
    salt = "0x05";
    hook_data = record {
      remote_domain = 10009;
      remote_depositor = "0x04";
      remote_token = "0x09";
      forwarding_contract_address = "0x";
      forwarding_calldata = "0x";
    };
  };
}

abbrev pub batch : PrepareBatch
batch = record { burn_intents = raw ∷ []; encoded = "encoded"; message_hash_to_sign = "0x01" }

-- The fields of the quote, as they parse.
abbrev hook : HookData
hook = record {
  remote_domain = 10009;
  remote_token = 9;
  remote_depositor = 4;
  forwarding_contract = 0;
  forwarding_calldata = [];
}

abbrev intent : Intent
intent = record {
  max_block_height = 999;
  max_fee = 40;
  spec = record {
    version = 1;
    source_domain = 26;
    destination_domain = 0;
    source_contract = 1;
    destination_contract = 2;
    source_token = arc_usdc;
    destination_token = 3;
    source_depositor = 4;
    destination_recipient = 77;
    source_signer = 4;
    destination_caller = 0;
    value = 960;
    salt = 5;
    hook_data = value_or [] (encode_hook hook);
  };
}

-- The concrete stand-ins for the libraries' parsers and codecs.
abbrev number : String → Option ℕ
number text =
    if str_eq text "0x01"
    then some 1
    else if str_eq text "0x02"
    then some 2
    else if str_eq text "0x03"
    then some 3
    else if str_eq text "0x04"
    then some 4
    else if str_eq text "0x05"
    then some 5
    else if str_eq text "0x09"
    then some 9
    else if str_eq text "to"
    then some 77
    else if str_eq text "usdc"
    then some arc_usdc
    else if str_eq text "0x"
    then some 0
    else none

abbrev digits : String → Option ℕ
digits text =
    if str_eq text "999"
    then some 999
    else if str_eq text "40"
    then some 40
    else if str_eq text "960"
    then some 960
    else none

abbrev pub libraries : Libraries
libraries = record {
  parse_b256 = number;
  parse_address = number;
  parse_bytes =
      λ text. if str_eq text "0x" then some [] else some (value_or [] (encode_intent intent));
  u256_from_digits = digits;
  decode_deposit_for_burn = λ bytes. none;
  encode_deposit_for_burn = λ call. [];
  decode_deposit_to_remote = λ bytes. none;
  encode_deposit_to_remote = λ call. [];
  signing_hash = λ i. 1;
  keccak256 = λ bytes. 7;
  account_bytes32 = λ account. account;
  miden_domain = 10009;
}

abbrev pub withdrawal : VerifiedWithdrawal
withdrawal = record { note_id = 5; intent = raw; digest = 1; transfer_spec_hash = 7 }

pub verify_run : verify libraries (batch ∷ []) burn config ≡ ok withdrawal
unfolding verify parse_intent parse_hook decimal parse_spec encode_hook verify_intent
    forwarding_max_fee verify_route bytes_eq verify_direct_leg verify_hook verify_amounts
    verify_source verify_signed encode_intent encode_spec append_with_length be_bytes hash_spec
    spec_fields fee_ceiling is_forwarded is_redeposit only verify_payout
verify_run = refl

verify-IsAuthorized_example : IsAuthorized libraries (batch ∷ []) burn config withdrawal
verify-IsAuthorized_example =
    verify-IsAuthorized libraries (batch ∷ []) burn config withdrawal (omega arith) verify_run

route_run : verify_route libraries intent hook burn config 20 ≡ ok 0
unfolding verify_route bytes_eq verify_direct_leg
route_run = refl

verify_route-Pays_example : Pays libraries intent hook burn config 20 0
verify_route-Pays_example = verify_route-Pays libraries intent hook burn config 20 0 route_run

abbrev policy : WithdrawalLimit
policy = record { message_prefix = "Withdrawal limit"; retry_interval = 1500000000 }

retry_run : retry_at policy (some 1000000000) ≡ ok 3
unfolding retry_at
retry_run = refl

retry_at_bounds_example :
    (2500000000 ≤ 3 * nanos_per_second)
    × (3 * nanos_per_second < 2500000000 + nanos_per_second)
    × (3 < 2 ^ 63)
retry_at_bounds_example = retry_at_bounds policy 1000000000 3 retry_run

abbrev two_chunks : Chunks
two_chunks = chunk (1 ∷ []) (chunk (2 ∷ []) end)

abbrev read_result : RawResponse
read_result = record { status = 200; body = 1 ∷ 2 ∷ [] }

read_reply_lem_example : (read_reply 200 two_chunks ≡ ok read_result) ↔ (
    (is_whole two_chunks ≡ true)
    × (length (joined two_chunks) ≤ max_response_body_bytes)
    × (200 ≢ too_many_requests)
    × (read_result ≡ record { status = 200; body = joined two_chunks }))
read_reply_lem_example = read_reply_lem 200 two_chunks read_result
