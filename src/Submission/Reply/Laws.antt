-- ===== src/Submission/Reply/Laws.antt =====
-- What a reply of Circle can do to a saved request: `read_response` and `read_conflict` of
-- crates/xusdc-light-attester/src/submission.rs against the store's checks.
use miden_usdcx.Prelude.{
  Result, String, Bytes, ◌≡◌, refl, ◌⊎◌, inl, inr, Bool, true, false, not, ◌&&◌, Option, none, some,
  arith, ok, err, ◌==◌, is_some, str_eq_iff, List, [], ◌∷◌, Bool-cases, if◌then◌else◌,
}
use miden_usdcx.Telemetry.{FailureClass}
use miden_usdcx.Circle.{Wire, RawResponse, WithdrawalResponse}
use miden_usdcx.Circle.Status
use miden_usdcx.Submission.{SavedSubmission, held}
use miden_usdcx.Submission.Id.{is_well_formed_id}
use miden_usdcx.Submission.Reply.{
  read_response, read_conflict, read_unexpected, read_expected, read_identified, read_found,
  read_status, read_withdrawal, identifies, keeps_id, one_hash, matches_note, expected_status,
  take_conflict_id, hold, read_list,
}
use miden_usdcx.Store.Rows.{outcome_is_valid}

-- The signed request that a saved submission holds.
pub record SameRequest (a b : SavedSubmission) : Type 0 where
  pub note_id : a.note_id ≡ b.note_id
  pub endpoint : a.endpoint ≡ b.endpoint
  pub body : a.body ≡ b.body
  pub transfer_spec_hash : a.transfer_spec_hash ≡ b.transfer_spec_hash

-- The reply left the request alone, and the ID too if it was known.
pub record Keeps (before after : SavedSubmission) : Type 0 where
  pub request : SameRequest after before
  pub id : (known : String) → before.withdrawal_id ≡ some known → after.withdrawal_id ≡ some known

abbrev pub Answer : Type 0
Answer = SavedSubmission × Option FailureClass

-- A text for the operator and a class, and nothing else.
abbrev pub failed_with : SavedSubmission → String → FailureClass → Answer
failed_with s message class = (record s { last_error = some message }, some class)

if_cases {ℓ κ} :
    {A : Type ℓ} (P : A → Type κ) (b : Bool) (x y : A)
    → (b ≡ true → P x)
    → (b ≡ false → P y)
    → P (if b then x else y)
if_cases P true x y then_x else_y = then_x refl
if_cases P false x y then_x else_y = else_y refl

module _ {ℓ} (P : Answer → Type ℓ) (w : Wire) (s : SavedSubmission)
    (fails : (message : String) (class : FailureClass) → P (failed_with s message class))
    (identified : (r : WithdrawalResponse)
      → identifies w s r ≡ true
      → P (read_identified w s r)) where
  read_identified_cases : (r : WithdrawalResponse) → P (read_identified w s r)
  unfolding read_identified
  read_identified_cases r = elim (Bool-cases (identifies w s r)) [
    | inl e ↦ identified r e
    | inr e ↦ rw (e, read_identified) (fails _ _)
  ]

  read_found_cases :
      (found : Result FailureClass (Option WithdrawalResponse)) → P (read_found w s found)
  unfolding read_found
  read_found_cases (err class) = fails _ _
  read_found_cases (ok none) = fails _ _
  read_found_cases (ok (some r)) = read_identified_cases r

  -- The ways in which a reply can be read.
  pub read_response_cases :
      (response : RawResponse)
      → ((response.status == expected_status w s) ≡ false → P (read_unexpected w s response.status))
      → P (read_response w s response)
  unfolding read_response read_expected
  read_response_cases response unexpected =
      if_cases P (response.status == expected_status w s) _ _
        (λ e. read_found_cases (read_withdrawal w (is_some s.withdrawal_id) response.body))
        unexpected

read_status_keeps :
    (w : Wire) (s : SavedSubmission) (status : String) (reason : Option String)
    → SameRequest (read_status w s status reason).0 s
      × ((read_status w s status reason).0.withdrawal_id ≡ s.withdrawal_id)
unfolding read_status
read_status_keeps w s status reason = ground arith

read_identified-Keeps :
    (w : Wire) (s : SavedSubmission) (r : WithdrawalResponse)
    → identifies w s r ≡ true
    → Keeps s (read_identified w s r).0
unfolding read_identified identifies keeps_id
read_identified-Keeps w s r h =
    let kept =
      read_status_keeps w (record s { withdrawal_id = some r.withdrawal_id }) r.status
        r.failure_reason in
    record {
      request = ground arith;
      id = λ known e. ground (arith, str_eq_iff known r.withdrawal_id);
    }

-- A reply never changes the signed request, nor a withdrawal ID that is already known.
pub read_response-Keeps :
    (w : Wire) (s : SavedSubmission) (response : RawResponse)
    → Keeps s (read_response w s response).0
unfolding read_unexpected
read_response-Keeps w s response =
    read_response_cases (λ a. Keeps s a.0) w s
      (λ message class. record { request = ground arith; id = λ known q. q })
      (read_identified-Keeps w s) response
      (λ e. record { request = ground arith; id = λ known q. ground arith })

read_identified-valid :
    (w : Wire) (s : SavedSubmission) (r : WithdrawalResponse)
    → s.hold_reason ≡ none
    → outcome_is_valid w s ≡ true
    → identifies w s r ≡ true
    → outcome_is_valid w (read_identified w s r).0 ≡ true
unfolding read_identified identifies read_status outcome_is_valid
read_identified-valid w s r free v h = ground arith

-- The store accepts what a reply makes of a valid submission that is not held.
pub read_response-outcome_is_valid :
    (w : Wire) (s : SavedSubmission) (response : RawResponse)
    → s.hold_reason ≡ none
    → outcome_is_valid w s ≡ true
    → outcome_is_valid w (read_response w s response).0 ≡ true
unfolding read_unexpected outcome_is_valid
read_response-outcome_is_valid w s response free v =
    read_response_cases (λ a. outcome_is_valid w a.0 ≡ true) w s (λ message class. ground arith)
      (λ r h. read_identified-valid w s r free v h) response (λ e. ground arith)

-- The reply names the saved withdrawal.
pub Names : Wire → SavedSubmission → WithdrawalResponse → Type 0
Names w s r =
    (is_well_formed_id r.withdrawal_id ≡ true)
    × (matches_note w s r.burn_note_id ≡ true)
    × ((hash : String) × (r.transfer_spec_hashes ≡ hash ∷ [])
        × (w.b256 hash ≡ some s.transfer_spec_hash))
    × ((known : String) → s.withdrawal_id ≡ some known → known ≡ r.withdrawal_id)

one_hash_lem :
    (w : Wire) (s : SavedSubmission) (hashes : List String)
    → one_hash w s hashes ≡ true
    → (hash : String) × (hashes ≡ hash ∷ []) × (w.b256 hash ≡ some s.transfer_spec_hash)
unfolding one_hash
one_hash_lem w s [] h = absurd (ground arith)
one_hash_lem w s (hash ∷ []) h = (hash, refl, ground arith)
one_hash_lem w s (hash ∷ other ∷ hashes) h = absurd (ground arith)

identifies-Names :
    (w : Wire) (s : SavedSubmission) (r : WithdrawalResponse)
    → identifies w s r ≡ true
    → Names w s r
unfolding identifies Names keeps_id
identifies-Names w s r h = (
  ground arith,
  ground arith,
  one_hash_lem w s r.transfer_spec_hashes (ground arith),
  λ known e. ground (arith, str_eq_iff known r.withdrawal_id),
)

-- The body is this withdrawal: the one that was looked up, or the only one of the list that a POST
-- is answered with.
abbrev pub IsReply : Wire → Option String → Bytes → WithdrawalResponse → Type 0
IsReply w none body r = w.withdrawals body ≡ some (r ∷ [])
IsReply w (some known) body r = w.withdrawal body ≡ some r

read_list_only :
    (w : Wire) (answer : Option (List WithdrawalResponse)) (r : WithdrawalResponse)
    → read_list w answer ≡ ok (some r)
    → answer ≡ some (r ∷ [])
unfolding read_list
read_list_only w none r h = absurd cc
read_list_only w (some []) r h = absurd cc
read_list_only w (some (x ∷ [])) r h = ground arith
read_list_only w (some (x ∷ y ∷ xs)) r h = absurd cc

read_withdrawal-IsReply :
    (w : Wire) (id : Option String) (body : Bytes) (r : WithdrawalResponse)
    → read_withdrawal w (is_some id) body ≡ ok (some r)
    → IsReply w id body r
unfolding read_withdrawal
read_withdrawal-IsReply w none body r h = read_list_only w (w.withdrawals body) r h
read_withdrawal-IsReply w (some known) body r h = ground arith

-- What a reply to this submission can do to its status.
abbrev pub StatusChange : Wire → SavedSubmission → RawResponse → Answer → Type 0
StatusChange w s response a =
    (a.0.status ≡ s.status)
    ⊎ ((response.status ≡ 400) × (s.withdrawal_id ≡ none) × (a.0.status ≡ held))
    ⊎ ((r : WithdrawalResponse) × (response.status ≡ expected_status w s)
        × IsReply w s.withdrawal_id response.body r
        × Names w s r
        × (a.0.withdrawal_id ≡ some r.withdrawal_id))

unexpected-StatusChange :
    (w : Wire) (s : SavedSubmission) (response : RawResponse)
    → StatusChange w s response (read_unexpected w s response.status)
unfolding read_unexpected hold
unexpected-StatusChange w s response =
    elim (Bool-cases (not (is_some s.withdrawal_id) && response.status == Status.bad_request)) [
      | inl e ↦ inr (inl (ground arith, ground arith, ground arith))
      | inr e ↦ inl (ground arith)
    ]

identified_id :
    (w : Wire) (s : SavedSubmission) (r : WithdrawalResponse)
    → identifies w s r ≡ true
    → (read_identified w s r).0.withdrawal_id ≡ some r.withdrawal_id
unfolding read_identified read_status
identified_id w s r h = ground arith

read_found-status :
    (w : Wire) (s : SavedSubmission) (response : RawResponse)
    (found : Result FailureClass (Option WithdrawalResponse))
    → response.status ≡ expected_status w s
    → read_withdrawal w (is_some s.withdrawal_id) response.body ≡ found
    → StatusChange w s response (read_found w s found)
unfolding read_found read_identified
read_found-status w s response (err class) expected q = inl refl
read_found-status w s response (ok none) expected q = inl refl
read_found-status w s response (ok (some r)) expected q = elim (Bool-cases (identifies w s r)) [
  | inr e ↦ rw (e, read_identified) (inl refl)
  | inl e ↦ inr (
      inr (
        r,
        expected,
        read_withdrawal-IsReply w s.withdrawal_id response.body r q,
        identifies-Names w s r e,
        identified_id w s r e,
      ))
]

-- A reply leaves the status of a submission as it was, unless it is a 400 to a POST, which holds
-- the submission, or it has the expected HTTP status and its body is a withdrawal, for a POST the
-- only one of a list, that names the saved one, and its ID is then saved: a well-formed ID, equal
-- to the known one if one is known, the burn note, and exactly one transfer hash, which is the
-- saved one.
pub read_response-status :
    (w : Wire) (s : SavedSubmission) (response : RawResponse)
    → StatusChange w s response (read_response w s response)
unfolding read_response read_expected
read_response-status w s response = elim (Bool-cases (response.status == expected_status w s)) [
  | inr e ↦ rw (e, read_response) (unexpected-StatusChange w s response)
  | inl e ↦
      rw (e, read_response)
        (read_found-status w s response (read_withdrawal w (is_some s.withdrawal_id) response.body)
          (ground arith) refl)
]

-- The ID is known and well formed.
abbrev pub has_good_id : Option String → Bool
has_good_id none = false
has_good_id (some id) = is_well_formed_id id

-- A 409 leaves the request and the status as they were, the store accepts the result if it accepted
-- the submission, and a 409 that is read without a failure leaves a well-formed ID.
pub read_conflict-valid :
    (w : Wire) (s : SavedSubmission)
    → outcome_is_valid w s ≡ true
    → SameRequest (read_conflict w s).0 s
      × ((read_conflict w s).0.status ≡ s.status)
      × (outcome_is_valid w (read_conflict w s).0 ≡ true)
      × ((read_conflict w s).1 ≡ none → has_good_id (read_conflict w s).0.withdrawal_id ≡ true)
unfolding read_conflict take_conflict_id outcome_is_valid
read_conflict-valid w s v = (ground arith, ground arith, ground arith, λ e. ground arith)

pub read_conflict-note_id :
    (w : Wire) (s : SavedSubmission) → (read_conflict w s).0.note_id ≡ s.note_id
unfolding read_conflict take_conflict_id
read_conflict-note_id w s = ground arith
