-- ===== src/Config.antt =====
-- crates/xusdc-light-attester/src/config.rs: the settings that the attester's decisions read.
use miden_usdcx.Prelude.{
  ℕ, ◌+◌, ◌*◌, ◌/◌, ◌%◌, ◌^◌, ◌≤◌, ◌<◌, ◌≡◌, String, ◌||◌, Option, none, some, List, arith, ltb,
  leb, ◌==◌, if◌then◌else◌, Result, ok, ensure, ok_or, ◌>>◌, ◌>>=◌,
}

abbrev pub first_remote_domain : ℕ
first_remote_domain = 10000

abbrev pub stacks_domain : ℕ
stacks_domain = 10003

abbrev pub cardano_domain : ℕ
cardano_domain = 10004

abbrev pub movement_domain : ℕ
movement_domain = 10005

-- What a forwarded withdrawal is checked against. An address is the number of its 20 bytes.
pub record CctpForwarding : Type 0 where
  pub max_fee : ℕ
  pub forwarder : ℕ
  pub token_messenger : ℕ

-- The retry interval is in nanoseconds.
pub record WithdrawalLimit : Type 0 where
  pub message_prefix : String
  pub retry_interval : ℕ

pub record Config : Type 0 where
  pub faucet_account_id : ℕ
  pub max_withdrawal_fee : ℕ
  pub max_withdrawal_fee_bps : ℕ
  pub cctp_forwarding : CctpForwarding
  pub xreserve_deposit_max_fee : Option ℕ
  -- In nanoseconds.
  pub poll_interval : ℕ
  pub withdrawal_limit : Option WithdrawalLimit
  pub trusted_anchor_block : ℕ
  pub trusted_anchor_commitment : ℕ
  pub minimum_finality_depth_blocks : ℕ
  pub expected_signing_public_keys_hex : List String

-- The fee cap of the second leg; a remote domain that is not supported has none.
unfoldable pub forwarding_max_fee : Config → ℕ → Option ℕ
forwarding_max_fee c destination =
    if destination == stacks_domain
      || (destination == cardano_domain || destination == movement_domain)
    then c.xreserve_deposit_max_fee
    else if leb first_remote_domain destination
    then none
    else some c.cctp_forwarding.max_fee

pub data ClockError : Type 0 where
  before_epoch deadline_overflow out_of_range : ClockError

abbrev pub nanos_per_second : ℕ
nanos_per_second = 1000000000

abbrev subsecond : ℕ → ℕ
subsecond nanos = if nanos % nanos_per_second == 0 then 0 else 1

-- The Unix second, rounded up, at which a burn rejected at `now` may be tried again. `now` is in
-- nanoseconds since the epoch, `none` before it; seconds are a `u64`, and the store keeps an `i64`.
unfoldable pub retry_at : WithdrawalLimit → Option ℕ → Result ClockError ℕ
retry_at policy now = do
  since ← ok_or now before_epoch
  let deadline = since + policy.retry_interval
  ensure (ltb (deadline / nanos_per_second) (2 ^ 64)) deadline_overflow
  let seconds = deadline / nanos_per_second + subsecond deadline
  ensure (ltb seconds (2 ^ 64)) deadline_overflow
  ensure (ltb seconds (2 ^ 63)) out_of_range
  ok seconds

-- A retry time that is returned is never before the interval after `now` has passed, is less than
-- a second after that, and fits the store's signed 64 bits.
pub retry_at_bounds :
    (policy : WithdrawalLimit) (now seconds : ℕ)
    → retry_at policy (some now) ≡ ok seconds
    → (now + policy.retry_interval ≤ seconds * nanos_per_second)
      × (seconds * nanos_per_second < now + policy.retry_interval + nanos_per_second)
      × (seconds < 2 ^ 63)
unfolding retry_at
retry_at_bounds policy now seconds h = ground arith
