-- ===== src/Witnesses/Cycle.antt =====
-- Concrete cases of the theorems on the attester's loops.
use miden_usdcx.Prelude.{◌≡◌, refl, true, some, [], ◌∷◌, ok, arith}
use miden_usdcx.Sql.{find, select, order_by}
use miden_usdcx.Store.{Store}
use miden_usdcx.Store.Limits.{first_limit_wait}
use miden_usdcx.Store.Rows.{outcome_is_valid, request_is_valid, validate_saved_request}
use miden_usdcx.Store.Sound.{IsSound}
use miden_usdcx.Attester.{Client, Clock}
use miden_usdcx.Attester.Limit.{limit_allows}
use miden_usdcx.Attester.Queue.{MayGo, limit_allows_lem}
use miden_usdcx.Attester.Loop.{Turn}
use miden_usdcx.Prelude.{Result, is_some, List}
use miden_usdcx.Submission.{SavedSubmission}
use miden_usdcx.Circle.{CircleError}
use miden_usdcx.Verify.Types.{PrepareBatch, VerifiedWithdrawal}
use miden_usdcx.Verify.Sound.{IsAuthorized}
use miden_usdcx.Store.{burn_at, submission_at}
use miden_usdcx.Store.Sound.Limits.{no_accepted}
use miden_usdcx.Attester.Withdraw.{Desk, new_submission, authorize_request}
use miden_usdcx.Attester.Authorized.{authorize_request-IsAuthorized}
use miden_usdcx.Witnesses.Data.{burn, burn_row, wire, request, with_burn}
use miden_usdcx.Witnesses.Quote.{batch, libraries, withdrawal, verify_run, config}

-- A store with a request that is being sent.
abbrev sending : Store
sending = record with_burn { submissions = request ∷ [] }

request_passes : (outcome_is_valid wire request ≡ true) × (request_is_valid wire request ≡ true)
unfolding outcome_is_valid request_is_valid validate_saved_request
request_passes = (refl, refl)

sending-IsSound : IsSound wire sending
unfolding find
sending-IsSound = record {
  burn_keys = (refl, tt);
  nullifiers = (refl, tt);
  submission_keys = (refl, tt);
  notes = λ k. ground (arith, request_passes);
}

-- Circle takes the request.
abbrev pub client : Client
client = record {
  post_submission = λ saved. ok (record { status = 201; body = 2 ∷ [] });
  get_withdrawal = λ saved id. ok (record { status = 200; body = 1 ∷ [] });
  error_text = λ error. "error";
}

abbrev pub clock : Clock
clock = record { since_epoch = some 5000000000; unixepoch = 5 }

abbrev pub turn : Turn
turn = record { commands = []; client = client; clock = clock }

idle_run : limit_allows config sending clock 5 ≡ ok (true, sending)
unfolding limit_allows first_limit_wait order_by select
idle_run = refl

limit_allows_lem_example : MayGo config sending clock 5 sending
limit_allows_lem_example = limit_allows_lem config sending sending clock 5 idle_run

-- Circle prepares the quote, and both signers sign.
abbrev pub desk : Desk
desk = record {
  prepare_withdrawal = λ b fee. ok (batch ∷ []);
  first_signature = λ digest. some (1 ∷ []);
  second_signature = λ digest. some (2 ∷ []);
  request_body = λ v one two. some (3 ∷ []);
  submission_endpoint = ok "https://circle/v1/withdraw";
}

abbrev new_request : SavedSubmission
new_request = new_submission withdrawal "https://circle/v1/withdraw" (3 ∷ [])

authorize_run : authorize_request libraries config desk burn (ok (batch ∷ [])) ≡ ok new_request
unfolding authorize_request
authorize_run = rw (verify_run, authorize_request) refl

authorize_request-IsAuthorized_example :
    (batches : List PrepareBatch) × (v : VerifiedWithdrawal) × (◌≡◌
      {A = Result CircleError (List PrepareBatch)}
      (ok (batch ∷ []))
      (ok batches))
    × IsAuthorized libraries batches burn config v
    × (new_request.note_id ≡ burn.note.id)
    × (new_request.transfer_spec_hash ≡ v.transfer_spec_hash)
    × (is_some (desk.first_signature v.digest) ≡ true)
    × (is_some (desk.second_signature v.digest) ≡ true)
authorize_request-IsAuthorized_example =
    authorize_request-IsAuthorized libraries config desk burn (ok (batch ∷ [])) new_request
      (omega arith) authorize_run

pub with_burn-IsSound : IsSound wire with_burn
unfolding find
with_burn-IsSound = record {
  burn_keys = (refl, tt);
  nullifiers = (refl, tt);
  submission_keys = tt;
  notes = λ k. ground arith;
}

found_run : burn_at with_burn 5 ≡ some burn_row
unfolding find
found_run = refl

free_run : no_accepted (submission_at with_burn 5) ≡ true
unfolding find
free_run = refl
