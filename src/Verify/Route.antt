-- ===== src/Verify/Route.antt =====
-- Where a withdrawal that `verify` of crates/xusdc-light-attester/src/verify.rs lets through pays:
-- the three routes, and the soundness of each leg's check.
use miden_usdcx.Prelude.{
  ℕ, ◌<◌, ◌≤◌, ◌≡◌, ◌⊎◌, inl, inr, true, false, some, bytes_eq_sound, Option-cases, ok, arith,
  Bool-cases, leb,
}
use miden_usdcx.Burn.{DiscoveredBurn}
use miden_usdcx.Config.{Config, CctpForwarding, first_remote_domain}
use miden_usdcx.Verify.Types.{
  Intent, TransferSpec, HookData, DepositForBurn, DepositToRemote, Libraries,
}
use miden_usdcx.Verify.{verify_direct_leg, verify_route, is_forwarded, is_redeposit}
use miden_usdcx.Verify.Legs.{verify_forwarded_leg, verify_redeposit_leg, xreserve_deployment}

pub PaysDirectly : TransferSpec → DiscoveredBurn → Type 0
PaysDirectly spec burn =
    (spec.destination_domain ≡ burn.items.dest_domain)
    × (spec.destination_recipient ≡ burn.items.dest_recipient)
    × (spec.destination_caller ≡ 0)

pub verify_direct_leg_lem :
    (spec : TransferSpec) (burn : DiscoveredBurn)
    → verify_direct_leg spec burn ≡ ok tt
    → PaysDirectly spec burn
unfolding verify_direct_leg PaysDirectly
verify_direct_leg_lem spec burn h = ground arith

module _ (l : Libraries) where
  -- The calldata is one CCTP transfer of the whole payout to the burn's recipient.
  pub PaysOverCctp : Intent → HookData → DiscoveredBurn → CctpForwarding → Type 0
  PaysOverCctp intent hook burn forwarding =
      (call : DepositForBurn) × (l.decode_deposit_for_burn hook.forwarding_calldata ≡ some call)
      × (l.encode_deposit_for_burn call ≡ hook.forwarding_calldata)
      × (call.amount ≡ intent.spec.value)
      × (call.destination_domain ≡ burn.items.dest_domain)
      × (call.mint_recipient ≡ burn.items.dest_recipient)
      × (call.max_fee ≡ forwarding.max_fee)
      × (hook.forwarding_contract ≡ forwarding.token_messenger)
      × (intent.spec.destination_recipient ≡ forwarding.forwarder)
      × (intent.spec.destination_caller ≡ forwarding.forwarder)

  pub verify_forwarded_leg_lem :
      (intent : Intent) (hook : HookData) (burn : DiscoveredBurn) (forwarding : CctpForwarding)
      → verify_forwarded_leg l intent hook burn forwarding ≡ ok tt
      → PaysOverCctp intent hook burn forwarding
  unfolding verify_forwarded_leg PaysOverCctp
  verify_forwarded_leg_lem intent hook burn forwarding h =
      elim (Option-cases (l.decode_deposit_for_burn hook.forwarding_calldata)) [
        | inl e ↦ absurd (ground arith)
        | inr (call, e) ↦ (
          call,
          e,
          bytes_eq_sound _ hook.forwarding_calldata (ground arith),
          ground arith,
          ground arith,
          ground arith,
          ground arith,
          ground arith,
          ground arith,
          ground arith,
        )
      ]

  -- The calldata is one deposit of the whole payout for the burn's recipient on its remote domain.
  pub PaysByRedeposit : Intent → HookData → DiscoveredBurn → ℕ → ℕ → Type 0
  PaysByRedeposit intent hook burn forwarder fee =
      (call : DepositToRemote) × (l.decode_deposit_to_remote hook.forwarding_calldata ≡ some call)
      × (l.encode_deposit_to_remote call ≡ hook.forwarding_calldata)
      × (call.value ≡ intent.spec.value)
      × (call.remote_domain ≡ burn.items.dest_domain)
      × (call.remote_recipient ≡ burn.items.dest_recipient)
      × (call.local_token ≡ intent.spec.destination_token)
      × (call.max_fee ≡ fee)
      × (hook.forwarding_contract ≡ forwarder)
      × (intent.spec.destination_recipient ≡ forwarder)
      × (intent.spec.destination_caller ≡ forwarder)

  pub verify_redeposit_leg_lem :
      (intent : Intent) (hook : HookData) (burn : DiscoveredBurn) (forwarder fee : ℕ)
      → verify_redeposit_leg l intent hook burn forwarder fee ≡ ok tt
      → PaysByRedeposit intent hook burn forwarder fee
  unfolding verify_redeposit_leg PaysByRedeposit
  verify_redeposit_leg_lem intent hook burn forwarder fee h =
      elim (Option-cases (xreserve_deployment l forwarder)) [
        | inl none_known ↦ absurd (ground arith)
        | inr (deployment, known) ↦
            elim (Option-cases (l.decode_deposit_to_remote hook.forwarding_calldata)) [
              | inl e ↦ absurd (ground arith)
              | inr (call, e) ↦ (
                call,
                e,
                bytes_eq_sound _ hook.forwarding_calldata (ground arith),
                ground arith,
                ground arith,
                ground arith,
                ground arith,
                ground arith,
                ground arith,
                ground arith,
                ground arith,
              )
            ]
      ]

  -- The route of a withdrawal: straight to the burn's recipient, over CCTP, or, for a remote
  -- domain, by a redeposit.
  pub Pays : Intent → HookData → DiscoveredBurn → Config → ℕ → ℕ → Type 0
  Pays intent hook burn config forwarding_fee secondary_fee =
      ((burn.items.dest_domain < first_remote_domain)
        × (is_forwarded hook ≡ false)
        × (secondary_fee ≡ 0)
        × PaysDirectly intent.spec burn)
      ⊎ (((burn.items.dest_domain < first_remote_domain)
            × (is_forwarded hook ≡ true)
            × (secondary_fee ≡ forwarding_fee)
            × PaysOverCctp intent hook burn config.cctp_forwarding)
          ⊎ ((first_remote_domain ≤ burn.items.dest_domain)
              × (secondary_fee ≡ forwarding_fee)
              × PaysByRedeposit intent hook burn config.cctp_forwarding.forwarder forwarding_fee))

  -- A route that passes is one of three. Below the remote domains without a hook, the spec pays
  -- the burn's recipient on the burn's domain, for anyone to deliver, with no second fee. Below
  -- them with a hook, the calldata is one canonical CCTP call that moves the whole payout to the
  -- burn's domain and recipient for the configured fee, through the configured contracts. On a
  -- remote domain it is one canonical deposit of the whole payout for the burn's domain and
  -- recipient, for the given fee, through the configured xReserve.
  pub verify_route-Pays :
      (intent : Intent) (hook : HookData) (burn : DiscoveredBurn) (config : Config)
      (forwarding_fee secondary_fee : ℕ)
      → verify_route l intent hook burn config forwarding_fee ≡ ok secondary_fee
      → Pays intent hook burn config forwarding_fee secondary_fee
  unfolding verify_route is_redeposit Pays
  verify_route-Pays intent hook burn config forwarding_fee secondary_fee h =
      elim (Bool-cases (leb first_remote_domain burn.items.dest_domain)) [
        | inl remote ↦ inr (
            inr (
              ground arith,
              ground arith,
              verify_redeposit_leg_lem intent hook burn config.cctp_forwarding.forwarder
                  forwarding_fee (ground arith),
            ))
        | inr near ↦ elim (Bool-cases (is_forwarded hook)) [
          | inl forwarded ↦ inr (
              inl (
                ground arith,
                forwarded,
                ground arith,
                verify_forwarded_leg_lem intent hook burn config.cctp_forwarding (ground arith),
              ))
          | inr bare ↦ inl (
            ground arith,
            bare,
            ground arith,
            verify_direct_leg_lem intent.spec burn (ground arith),
          )
        ]
      ]
