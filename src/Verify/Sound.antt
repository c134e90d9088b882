-- ===== src/Verify/Sound.antt =====
-- What `verify` of crates/xusdc-light-attester/src/verify.rs has checked of a withdrawal that it
-- hands to the signers.
use miden_usdcx.Prelude.{
  ℕ, ◌^◌, ◌<◌, ◌≡◌, true, ◌||◌, some, List, [], ◌∷◌, ok, arith, bytes_eq_sound, ok_or, >>=-eq-ok,
  ap, sym, subst, ◌∙◌, Option-cases, Result-cases, inl, inr,
}
use miden_usdcx.Burn.{DiscoveredBurn}
use miden_usdcx.Config.{Config, forwarding_max_fee}
use miden_usdcx.Verify.Types.{
  PrepareBatch, RawIntent, Intent, HookData, Libraries, VerifiedWithdrawal,
}
use miden_usdcx.Verify.Encoding.{encode_intent, hash_spec}
use miden_usdcx.Verify.Parse.{parse_intent}
use miden_usdcx.Verify.{
  only, is_forwarded, is_redeposit, verify_hook, verify_route, verify_signed, verify_intent, verify,
}
use miden_usdcx.Verify.Legs.{arc_domain, arc_usdc}
use miden_usdcx.Verify.Route.{Pays, verify_route-Pays}
use miden_usdcx.Verify.Bounds.{
  Accounts, verify_amounts-Accounts, verify_source_lem, verify_payout_lem,
}

only_lem : {A : Type 0} (xs : List A) (x : A) → only xs ≡ ok x → xs ≡ x ∷ []
unfolding only
only_lem [] x h = ground arith
only_lem (y ∷ []) x h = ground arith
only_lem (y ∷ z ∷ ys) x h = ground arith

module _ (l : Libraries) where
  -- The digest and the encoding are those of the checked fields.
  pub Signs : PrepareBatch → Intent → ℕ → Type 0
  Signs batch intent digest =
      (digest ≡ l.signing_hash intent)
      × (l.parse_b256 batch.message_hash_to_sign ≡ some digest)
      × ((encoded : List ℕ) × (encode_intent intent ≡ ok encoded)
          × (l.parse_bytes batch.encoded ≡ some encoded))

  verify_signed-Signs :
      (batch : PrepareBatch) (intent : Intent) (digest : ℕ)
      → verify_signed l batch intent ≡ ok digest
      → Signs batch intent digest
  unfolding verify_signed Signs
  verify_signed-Signs batch intent digest h =
      let (supplied, hs, h1) = >>=-eq-ok (ok_or (l.parse_bytes batch.encoded) _) _ h in
      let (encoded, he, h2) = >>=-eq-ok (encode_intent intent) _ h1 in
      let same : supplied ≡ encoded = bytes_eq_sound supplied encoded (ground arith) in
      (ground arith, ground arith, (encoded, he, ground arith))

  -- The hook names Miden, the burn's sender and the configured faucet.
  pub NamesBurn : HookData → DiscoveredBurn → Config → Type 0
  NamesBurn hook burn config =
      (hook.remote_domain ≡ l.miden_domain)
      × (hook.remote_depositor ≡ l.account_bytes32 burn.note.sender)
      × (hook.remote_token ≡ l.account_bytes32 config.faucet_account_id)

  verify_hook-NamesBurn :
      (hook : HookData) (burn : DiscoveredBurn) (config : Config)
      → verify_hook l hook burn config ≡ ok tt
      → NamesBurn hook burn config
  unfolding verify_hook NamesBurn
  verify_hook-NamesBurn hook burn config h = ground arith

  -- What was checked of the one intent.
  pub record IsChecked (batch : PrepareBatch) (intent : Intent) (hook : HookData)
      (burn : DiscoveredBurn) (config : Config) (w : VerifiedWithdrawal) : Type 0 where
    pub forwarding_fee : ℕ
    pub secondary_fee : ℕ
    pub is_for_burn : (w.note_id ≡ burn.note.id) × (intent.spec.salt ≡ burn.note.id)
    pub is_supported : forwarding_max_fee config burn.items.dest_domain ≡ some forwarding_fee
    pub pays : Pays l intent hook burn config forwarding_fee secondary_fee
    pub names_burn : NamesBurn hook burn config
    pub accounts : Accounts intent burn.amount secondary_fee config
    pub takes_usdc :
        (intent.spec.source_signer ≡ intent.spec.source_depositor)
        × (intent.spec.source_token ≡ arc_usdc)
        × (intent.spec.source_domain ≡ arc_domain)
    pub signs : Signs batch intent w.digest
    pub can_pay_leg :
        (is_forwarded hook || is_redeposit burn) ≡ true → secondary_fee < intent.spec.value
    pub is_hashed : hash_spec l intent.spec ≡ ok w.transfer_spec_hash

  verify_intent-IsChecked :
      (batch : PrepareBatch) (raw : RawIntent) (intent : Intent) (hook : HookData)
      (burn : DiscoveredBurn) (config : Config) (w : VerifiedWithdrawal)
      → config.max_withdrawal_fee < 2 ^ 64
      → verify_intent l batch raw intent hook burn config ≡ ok w
      → (w.intent ≡ raw) × IsChecked batch intent hook burn config w
  unfolding verify_intent
  verify_intent-IsChecked batch raw intent hook burn config w range h =
      elim (Option-cases (forwarding_max_fee config burn.items.dest_domain)) [
        | inl e ↦ absurd (ground arith)
        | inr (fee, hf) ↦ elim (Result-cases (verify_route l intent hook burn config fee)) [
          | inr (e, hr) ↦ absurd (ground arith)
          | inl (secondary, hr) ↦ (
            ground arith,
            record {
              forwarding_fee = fee;
              secondary_fee = secondary;
              is_for_burn = ground arith;
              is_supported = hf;
              pays = verify_route-Pays l intent hook burn config fee secondary hr;
              names_burn = verify_hook-NamesBurn hook burn config (ground arith);
              accounts =
                  verify_amounts-Accounts intent burn.amount secondary config range (ground arith);
              takes_usdc = verify_source_lem intent.spec (ground arith);
              signs = verify_signed-Signs batch intent w.digest (ground arith);
              can_pay_leg =
                  λ leg. verify_payout_lem secondary intent.spec.value burn.amount (ground arith);
              is_hashed = ground arith;
            },
          )
        ]
      ]

  verify_intent_note :
      (batch : PrepareBatch) (raw : RawIntent) (intent : Intent) (hook : HookData)
      (burn : DiscoveredBurn) (config : Config) (w : VerifiedWithdrawal)
      → verify_intent l batch raw intent hook burn config ≡ ok w
      → w.note_id ≡ burn.note.id
  unfolding verify_intent
  verify_intent_note batch raw intent hook burn config w h =
      elim (Option-cases (forwarding_max_fee config burn.items.dest_domain)) [
        | inl e ↦ absurd (ground arith)
        | inr (fee, hf) ↦ elim (Result-cases (verify_route l intent hook burn config fee)) [
          | inr (e, hr) ↦ absurd (ground arith)
          | inl (secondary, hr) ↦ ground arith
        ]
      ]

  -- The reply has one batch with one intent, which is the one that was checked and is signed.
  pub IsAuthorized : List PrepareBatch → DiscoveredBurn → Config → VerifiedWithdrawal → Type 0
  IsAuthorized batches burn config w =
      (batch : PrepareBatch) × (intent : Intent) × (hook : HookData) × (batches ≡ batch ∷ [])
      × (batch.burn_intents ≡ w.intent ∷ [])
      × (parse_intent l w.intent ≡ ok (intent, hook))
      × IsChecked batch intent hook burn config w

  -- If the configured fixed fee fits 64 bits and `verify` accepts a reply for a burn, then the
  -- reply has one batch with one intent, which is the intent that is returned to be signed; its
  -- salt is the burn's note ID; it pays on the route that the burn's domain asks for; the hook
  -- names Miden, the burn's sender and the faucet; payout and fee are exactly the burned amount,
  -- the payout is not zero, and both fees are under the configured ceiling; it takes USDC out of
  -- Arc for one signer; the digest is that of the checked fields and the one Circle asked for,
  -- and the encoded bytes are those of the fields; a second leg costs less than the payout; and
  -- the saved hash is that of the spec.
  pub verify-IsAuthorized :
      (batches : List PrepareBatch) (burn : DiscoveredBurn) (config : Config)
      (w : VerifiedWithdrawal)
      → config.max_withdrawal_fee < 2 ^ 64
      → verify l batches burn config ≡ ok w
      → IsAuthorized batches burn config w
  unfolding verify IsAuthorized
  verify-IsAuthorized batches burn config w range h0 =
      let (batch, hb, h1) = >>=-eq-ok (only batches) _ h0 in
      let (raw, hr, h2) = >>=-eq-ok (only batch.burn_intents) _ h1 in
      let ((intent, hook), hp, h3) = >>=-eq-ok (parse_intent l raw) _ h2 in
      let (same, checked) = verify_intent-IsChecked batch raw intent hook burn config w range h3 in
      (
        batch,
        intent,
        hook,
        only_lem batches batch hb,
        only_lem batch.burn_intents raw hr ∙ ap (λ r. r ∷ []) (sym same),
        subst (λ r. parse_intent l r ≡ ok (intent, hook)) (sym same) hp,
        checked,
      )

  -- The withdrawal that is returned is the burn's, whatever the configuration.
  pub verify-note_id :
      (batches : List PrepareBatch) (burn : DiscoveredBurn) (config : Config)
      (w : VerifiedWithdrawal)
      → verify l batches burn config ≡ ok w
      → w.note_id ≡ burn.note.id
  unfolding verify
  verify-note_id batches burn config w h0 =
      let (batch, hb, h1) = >>=-eq-ok (only batches) _ h0 in
      let (raw, hr, h2) = >>=-eq-ok (only batch.burn_intents) _ h1 in
      let ((intent, hook), hp, h3) = >>=-eq-ok (parse_intent l raw) _ h2 in
      verify_intent_note batch raw intent hook burn config w h3
