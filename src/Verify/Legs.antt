-- ===== src/Verify/Legs.antt =====
-- `verify_forwarded_leg`, `verify_redeposit_leg` and `xreserve_deployment` of
-- crates/xusdc-light-attester/src/verify.rs: the second leg of a withdrawal.
use miden_usdcx.Prelude.{
  ℕ, String, Bool, Option, none, some, [], ◌∷◌, ◌++◌, Bytes, bytes_eq, ◌==◌, if◌then◌else◌, Result,
  ok, err, ensure, ok_or, ◌>>=◌, ◌>>◌,
}
use miden_usdcx.Burn.{DiscoveredBurn}
use miden_usdcx.Config.{CctpForwarding}
use miden_usdcx.Submission.Id.{codes}
use miden_usdcx.Verify.Types.{Intent, HookData, Libraries, VerifyError, forwarded_field}

abbrev pub arc_domain : ℕ
arc_domain = 26

abbrev pub arc_usdc : ℕ
arc_usdc = 0x3600000000000000000000000000000000000000

abbrev pub cctp_fast_finality : ℕ
cctp_fast_finality = 1000

-- "cctp-forward", zero-padded to 32 bytes.
abbrev pub cctp_forward_marker : Bytes
cctp_forward_marker =
    codes "cctp-forward"
    ++ (0 ∷ 0 ∷ 0 ∷ 0 ∷ 0 ∷ 0 ∷ 0 ∷ 0 ∷ 0 ∷ 0 ∷ 0 ∷ 0 ∷ 0 ∷ 0 ∷ 0 ∷ 0 ∷ 0 ∷ 0 ∷ 0 ∷ 0 ∷ [])

-- A check of one field of the forwarded route.
abbrev pub field_is : Bool → String → Result VerifyError (Unit {0})
field_is matches field = ensure matches (forwarded_field field)

module _ (l : Libraries) where
  unfoldable pub verify_forwarded_leg :
      Intent → HookData → DiscoveredBurn → CctpForwarding → Result VerifyError (Unit {0})
  verify_forwarded_leg intent hook burn forwarding = do
    field_is (hook.forwarding_contract == forwarding.token_messenger) "forwardingContractAddress"
    field_is (intent.spec.destination_recipient == forwarding.forwarder) "destinationRecipient"
    field_is (intent.spec.destination_caller == forwarding.forwarder) "destinationCaller"
    field_is (intent.spec.destination_domain == arc_domain) "destinationDomain"
    field_is (intent.spec.destination_token == arc_usdc) "destinationToken"
    call ←
        ok_or (l.decode_deposit_for_burn hook.forwarding_calldata)
          (forwarded_field "forwardingCalldata")
    field_is (bytes_eq (l.encode_deposit_for_burn call) hook.forwarding_calldata)
        "forwardingCalldata"
    field_is (call.amount == intent.spec.value) "calldata amount"
    field_is (call.destination_domain == burn.items.dest_domain) "calldata destinationDomain"
    field_is (call.mint_recipient == burn.items.dest_recipient) "calldata mintRecipient"
    field_is (call.burn_token == intent.spec.destination_token) "calldata burnToken"
    field_is (call.destination_caller == 0) "calldata destinationCaller"
    field_is (call.max_fee == forwarding.max_fee) "calldata maxFee"
    field_is (call.min_finality_threshold == cctp_fast_finality) "calldata minFinalityThreshold"
    field_is (bytes_eq call.hook_data cctp_forward_marker) "calldata hookData"

  -- USDC on Ethereum, GatewayWallet and GatewayMinter of a known xReserve.
  unfoldable pub xreserve_deployment : ℕ → Option (ℕ × ℕ × ℕ)
  xreserve_deployment xreserve =
      if xreserve == 0x8888888199b2df864bf678259607d6d5ebb4e3ce
      then some (
        0xa0b86991c6218b36c1d19d4a2e9eb0ce3606eb48, 0x77777777dcc4d5a8b6e418fd04d8997ef11000ee,
        0x2222222d7164433c4c09b0b0d809a9b52c04c205,
      )
      else if xreserve == 0x008888878f94c0d87defdf0b07f46b93c1934442
      then some (
        0x1c7d4b196cb0c7b01d743fbc6116a902379c7238, 0x0077777d7eba4688bdef3e311b846f25870a19b9,
        0x0022222abe238cc2c7bb1f21003f0a260052475b,
      )
      else none

  abbrev redeposit_token : ℕ → ℕ → Result VerifyError ℕ
  redeposit_token domain ethereum_token =
      if domain == 0
      then ok ethereum_token
      else if domain == arc_domain
      then ok arc_usdc
      else err (forwarded_field "destinationDomain")

  unfoldable pub verify_redeposit_leg :
      Intent → HookData → DiscoveredBurn → ℕ → ℕ → Result VerifyError (Unit {0})
  verify_redeposit_leg intent hook burn forwarder max_fee = do
    (ethereum_token, wallet, minter) ←
        ok_or (xreserve_deployment forwarder) (forwarded_field "xreserve deployment")
    token ← redeposit_token intent.spec.destination_domain ethereum_token
    field_is (hook.forwarding_contract == forwarder) "forwardingContractAddress"
    field_is (intent.spec.destination_recipient == forwarder) "destinationRecipient"
    field_is (intent.spec.destination_caller == forwarder) "destinationCaller"
    field_is (intent.spec.destination_token == token) "destinationToken"
    field_is (intent.spec.source_contract == wallet) "sourceContract"
    field_is (intent.spec.destination_contract == minter) "destinationContract"
    call ←
        ok_or (l.decode_deposit_to_remote hook.forwarding_calldata)
          (forwarded_field "forwardingCalldata")
    field_is (bytes_eq (l.encode_deposit_to_remote call) hook.forwarding_calldata)
        "forwardingCalldata"
    field_is (call.value == intent.spec.value) "calldata value"
    field_is (call.remote_domain == burn.items.dest_domain) "calldata remoteDomain"
    field_is (call.remote_recipient == burn.items.dest_recipient) "calldata remoteRecipient"
    field_is (call.local_token == token) "calldata localToken"
    field_is (call.max_fee == max_fee) "calldata maxFee"
    field_is (bytes_eq call.hook_data []) "calldata hookData"
