-- ===== src/Relayer/Node.antt =====
-- `retain_unminted` and `submit_notes` of crates/xreserve-deposit-relayer/src/miden.rs, with the wait for
-- a submitted transaction. The Miden client's answers are a parameter.
pub mod Wait
use miden_usdcx.Prelude.{
  ℕ, suc, Bool, true, false, ◌&&◌, leb, ltb, Option, none, some, List, [], ◌∷◌, if◌then◌else◌,
  Result, ok, err, map_err, ok_or, ◌>>=◌, ◌>>◌, String,
}
use miden_usdcx.Telemetry.{FailureClass, transient, actionable, integrity}
use miden_usdcx.Relayer.{Failure}
use miden_usdcx.Relayer.Feed.{fail}

-- An error of the client: of the node, with whether it is the explicit rejection of an expired
-- transaction, or the client's own.
pub data ClientError : Type 0 where
  rpc_error : Bool → ClientError
  other_error : ClientError

-- `client_class`, with `is_expired_submission` of the error.
unfoldable pub client_failure : String → ClientError → Failure
client_failure kind (rpc_error expired) = record {
  class = transient kind;
  expired_submission = expired;
}
client_failure kind other_error = fail (actionable kind)

abbrev pub failed_syncs_before_giving_up : ℕ
failed_syncs_before_giving_up = 3

abbrev pub is_transient : FailureClass → Bool
is_transient (integrity kind) = false
is_transient (actionable kind) = false
is_transient (transient kind) = true

unfoldable pub retry_sync : Failure → ℕ → Bool
retry_sync failure failed_syncs =
    is_transient failure.class && ltb failed_syncs failed_syncs_before_giving_up

pub data TransactionStatus : Type 0 where
  committed : ℕ → TransactionStatus
  discarded pending : TransactionStatus

pub data Inclusion : Type 0 where
  included : ℕ → Inclusion
  waiting : Inclusion

unfoldable pub inclusion : TransactionStatus → ℕ → ℕ → Result Failure Inclusion
inclusion (committed block) chain_tip expiration_block = ok (included block)
inclusion discarded chain_tip expiration_block = err (fail (transient "transaction_discarded"))
inclusion pending chain_tip expiration_block =
    if leb expiration_block chain_tip
    then err (fail (transient "transaction_expired"))
    else ok waiting

-- What the client's store has after a sync.
pub record Seen : Type 0 where
  pub status : TransactionStatus
  pub expiration_block : ℕ
  pub chain_tip : ℕ

-- One turn of the wait: the sync, and what is read after it; `none` if a read fails.
pub record Poll : Type 0 where
  pub sync : Result ClientError (Unit {0})
  pub seen : Option Seen

abbrev pub store_failed : Failure
store_failed = fail (actionable "client_store")

-- What a turn says of the transaction.
unfoldable pub read_poll : Poll → Result Failure Inclusion
unfolding inclusion
read_poll poll = do
  seen ← ok_or poll.seen store_failed
  inclusion seen.status seen.chain_tip seen.expiration_block

-- The wait, with the number of syncs that failed in a row; `none` is a wait that is not over.
unfoldable pub await_inclusion : ℕ → List Poll → Option (Result Failure ℕ)
unfolding client_failure retry_sync read_poll
await_inclusion failed_syncs [] = none
await_inclusion failed_syncs (poll ∷ polls) =
    let again = await_inclusion (suc failed_syncs) polls in
    let later = await_inclusion 0 polls in
    elim poll.sync [
      | err e ↦
          let failure = client_failure "node_sync" e in
          if retry_sync failure (suc failed_syncs) then again else some (err failure)
      | ok _ ↦ elim (read_poll poll) [
        | err e ↦ some (err e)
        | ok (included block) ↦ some (ok block)
        | ok waiting ↦ later
      ]
    ]

-- What the client answers in one submission: the request built, the sync, the submission, the polls.
pub record Submission : Type 0 where
  pub built : Bool
  pub synced : Result ClientError (Unit {0})
  pub submitted : Result ClientError (Unit {0})
  pub polls : List Poll

-- `NodeClient::submit_notes`, with the block that has the transaction.
unfoldable pub submit_notes : Submission → Option (Result Failure ℕ)
unfolding await_inclusion client_failure
submit_notes s = elim s.built [
  | false ↦ some (err (fail (actionable "transaction_request")))
  | true ↦ elim (map_err (client_failure "node_sync") s.synced) [
    | err e ↦ some (err e)
    | ok _ ↦ elim (map_err (client_failure "transaction_submit") s.submitted) [
      | err e ↦ some (err e)
      | ok _ ↦ await_inclusion 0 s.polls
    ]
  ]
]

-- The nonces whose entry in the faucet's map is empty; `none` is a read that fails.
unfoldable pub read_nonces : (ℕ → Option Bool) → List ℕ → Result Failure (List ℕ)
read_nonces is_unused [] = ok []
read_nonces is_unused (nonce ∷ nonces) = do
  unused ← ok_or (is_unused nonce) store_failed
  rest ← read_nonces is_unused nonces
  ok (if unused then nonce ∷ rest else rest)

-- `NodeClient::retain_unminted`
unfoldable pub retain_unminted :
    Result ClientError (Unit {0}) → (ℕ → Option Bool) → List ℕ → Result Failure (List ℕ)
unfolding read_nonces client_failure
retain_unminted synced is_unused [] = ok []
retain_unminted synced is_unused (nonce ∷ nonces) =
    map_err (client_failure "node_sync") synced >> read_nonces is_unused (nonce ∷ nonces)
