-- ===== src/Attester/Authorized.antt =====
-- A new request of `withdraw` of crates/xusdc-light-attester/src/attester.rs comes of a checked and
-- signed quote.
use miden_usdcx.Prelude.{
  ◌^◌, ◌<◌, ◌≡◌, inl, inr, refl, ap, ◌∙◌, true, some, List, Bytes, String, arith, is_some, Result,
  ok, Option-cases, Result-cases,
}
use miden_usdcx.Circle.{CircleError}
use miden_usdcx.Burn.{DiscoveredBurn}
use miden_usdcx.Config.{Config}
use miden_usdcx.Submission.{SavedSubmission}
use miden_usdcx.Verify.Types.{Libraries, PrepareBatch, VerifiedWithdrawal}
use miden_usdcx.Verify.{verify}
use miden_usdcx.Verify.Sound.{IsAuthorized, verify-IsAuthorized, verify-note_id}
use miden_usdcx.Attester.Withdraw.{Desk, authorize_request, new_submission}

module _ (l : Libraries) (config : Config) (desk : Desk) where
  -- The request comes of a quote that was verified, and carries both signers' signatures of the
  -- verified digest.
  abbrev pub ComesOf :
      DiscoveredBurn → Result CircleError (List PrepareBatch) → SavedSubmission → Type 0
  ComesOf burn prepared saved =
      (batches : List PrepareBatch) × (v : VerifiedWithdrawal) × (first_signed second_signed
        body : Bytes)
      × (endpoint : String) × (prepared ≡ ok batches)
      × (verify l batches burn config ≡ ok v)
      × (desk.first_signature v.digest ≡ some first_signed)
      × (desk.second_signature v.digest ≡ some second_signed)
      × (desk.request_body v first_signed second_signed ≡ some body)
      × (saved ≡ new_submission v endpoint body)

  pub authorize_request_lem :
      (burn : DiscoveredBurn) (prepared : Result CircleError (List PrepareBatch))
      (saved : SavedSubmission)
      → authorize_request l config desk burn prepared ≡ ok saved
      → ComesOf burn prepared saved
  unfolding authorize_request
  authorize_request_lem burn prepared saved h = elim (Result-cases prepared) [
    | inr (x, e) ↦ absurd (ground arith)
    | inl (batches, e) ↦ elim (Result-cases (verify l batches burn config)) [
      | inr (x, f) ↦ absurd (ground arith)
      | inl (v, f) ↦ elim (Option-cases (desk.first_signature v.digest)) [
        | inl g ↦ absurd (ground arith)
        | inr (first_signed, g) ↦ elim (Option-cases (desk.second_signature v.digest)) [
          | inl k ↦ absurd (ground arith)
          | inr (second_signed, k) ↦ elim (Result-cases desk.submission_endpoint) [
            | inr (x, m) ↦ absurd (ground arith)
            | inl (endpoint, m) ↦
                elim (Option-cases (desk.request_body v first_signed second_signed)) [
                  | inl n ↦ absurd (ground arith)
                  | inr (body, n) ↦ (
                    batches,
                    v,
                    first_signed,
                    second_signed,
                    body,
                    endpoint,
                    e,
                    f,
                    g,
                    k,
                    n,
                    ground arith,
                  )
                ]
          ]
        ]
      ]
    ]
  ]

  -- If the configured fixed fee fits 64 bits and a request is made of Circle's answer to a
  -- prepare, then Circle sent batches, they passed the whole check against the burn, the request
  -- bears the burn's note ID and the verified spec's hash, and both signers signed the verified
  -- digest.
  pub authorize_request-IsAuthorized :
      (burn : DiscoveredBurn) (prepared : Result CircleError (List PrepareBatch))
      (saved : SavedSubmission)
      → config.max_withdrawal_fee < 2 ^ 64
      → authorize_request l config desk burn prepared ≡ ok saved
      → (batches : List PrepareBatch) × (v : VerifiedWithdrawal) × (prepared ≡ ok batches)
        × IsAuthorized l batches burn config v
        × (saved.note_id ≡ burn.note.id)
        × (saved.transfer_spec_hash ≡ v.transfer_spec_hash)
        × (is_some (desk.first_signature v.digest) ≡ true)
        × (is_some (desk.second_signature v.digest) ≡ true)
  authorize_request-IsAuthorized burn prepared saved range h =
      let (batches, v, a, b, body, endpoint, e, f, g, k, n, q) =
        authorize_request_lem burn prepared saved h in
      (
        batches,
        v,
        e,
        verify-IsAuthorized l batches burn config v range f,
        ap (λ r. r.note_id) q ∙ verify-note_id l batches burn config v f,
        ap (λ r. r.transfer_spec_hash) q,
        rw g refl,
        rw k refl,
      )
