-- ===== src/Relayer.antt =====
-- crates/xreserve-deposit-relayer: the service that relays Circle's deposit attestations to the xUSDC
-- faucet. This file has the types that its parts share.
pub mod Feed
pub mod Progress
pub mod Unminted
pub mod Minting
pub mod Node
pub mod Watch
pub mod Scan
pub mod Served
pub mod Restart
pub mod PageProgress
pub mod Fetched
pub mod PageCoverage
pub mod Coverage
pub mod Turns
pub mod Completion
pub mod Newest
pub mod Walk
pub mod Landed
pub mod Handled
use miden_usdcx.Prelude.{ℕ, String, Bool, Option, none, some, List, Bytes, Result}
use miden_usdcx.Telemetry.{FailureClass}

-- circle.rs: a deposit's payload with the attester's signature, and the digest that names it.
pub record Attestation : Type 0 where
  pub payload : Bytes
  pub message_hash : ℕ
  pub signature : Bytes

-- One entry of a page, in the place Circle served it.
pub data Entry : Type 0 where
  attestation : Attestation → Entry
  undecodable : ℕ → Option ℕ → String → Entry

-- `Entry::message_hash`
unfoldable pub message_hash : Entry → Option ℕ
message_hash (attestation a) = some a.message_hash
message_hash (undecodable position hash reason) = hash

-- One page of the feed, newest first, with the cursor of the next one.
pub record Page : Type 0 where
  pub entries : List Entry
  pub next : Option String

-- A classified failure, and whether the node refused the transaction as expired.
pub record Failure : Type 0 where
  pub class : FailureClass
  pub expired_submission : Bool

-- What the code reads of a mint note.
pub record MintNote : Type 0 where
  pub nonce : ℕ
  pub serial_number : ℕ

-- What the code calls of the libraries: the JSON of the list and of its elements, the `Link` header
-- with its relations, and the note builder with the serial number that it draws.
pub record RawEntry : Type 0 where
  pub attestation : Option Attestation
  pub message_hash : Option ℕ
  pub reason : String

pub record RelayLibraries : Type 0 where
  pub list_response : Bytes → Option (List RawEntry)
  pub next_query : String → Option (Option (List (String × String)))
  pub note_of : Attestation → ℕ → Option MintNote
