-- ===== src/Attester/Submit.antt =====
-- `submit_withdrawals` of crates/xusdc-light-attester/src/attester.rs: the loop over the burns that are
-- ready.
use miden_usdcx.Prelude.{Bool, true, false, Option, none, some, List, [], ◌∷◌, Result, ok, err}
use miden_usdcx.Circle.{Wire}
use miden_usdcx.Burn.{DiscoveredBurn}
use miden_usdcx.Config.{Config}
use miden_usdcx.Verify.Types.{Libraries}
use miden_usdcx.Store.{Store}
use miden_usdcx.Attester.{Client, Clock}
use miden_usdcx.Attester.Limit.{limit_allows}
use miden_usdcx.Attester.Loop.{Commands, admin_checkpoint}
use miden_usdcx.Attester.Withdraw.{Desk, SubmitError, fatal, is_fatal, attempt_withdrawal}

-- What surrounds one burn's turn: the commands that came in before it, Circle's quote and the
-- signers, Circle's answers and the time.
pub record BurnTurn : Type 0 where
  pub commands : Commands
  pub desk : Desk
  pub client : Client
  pub clock : Clock

-- Where the loop over burns leaves the store and the cycle: an error that ends the cycle, or the
-- first error of a burn, if there was one.
pub record Submits : Type 0 where
  pub store : Store
  pub rate_limited : Bool
  pub result : Result SubmitError (Result SubmitError (Unit {0}))

-- `get_or_insert`
abbrev pub first_of : Option SubmitError → SubmitError → Option SubmitError
first_of none e = some e
first_of (some first) e = some first

-- `map_or(Ok(()), Err)`
abbrev pub as_result : Option SubmitError → Result SubmitError (Unit {0})
as_result none = ok tt
as_result (some e) = err e

abbrev pub submits : Store → Bool → Option SubmitError → Submits
submits s limited first = record {
  store = s;
  rate_limited = limited;
  result = ok (as_result first);
}

abbrev pub fails : Store → Bool → SubmitError → Submits
fails s limited e = record { store = s; rate_limited = limited; result = err e }

module _ (w : Wire) (l : Libraries) (config : Config) where
  -- A burn's turn moves the first error on, or ends the loop.
  unfoldable pub submit_withdrawals :
      Store → Bool → Option SubmitError → List (DiscoveredBurn × BurnTurn) → Submits
  submit_withdrawals s limited first [] = submits s limited first
  submit_withdrawals s limited first ((burn, turn) ∷ rest) =
      let now = admin_checkpoint s turn.commands in
      elim limited [
        | true ↦ submits now true first
        | false ↦ elim (limit_allows config now turn.clock burn.note.id) [
          | err e ↦ fails now false (fatal e)
          | ok (false, same) ↦ submits same false first
          | ok (true, moved) ↦
              let a =
                attempt_withdrawal w l config turn.desk turn.client turn.clock moved false burn in
              elim a.result [
                | ok _ ↦ submit_withdrawals a.store a.rate_limited first rest
                | err e ↦ elim (is_fatal e) [
                  | true ↦ fails a.store a.rate_limited e
                  | false ↦ submit_withdrawals a.store a.rate_limited (first_of first e) rest
                ]
              ]
        ]
      ]
