-- ===== src/Witnesses/Start.antt =====
-- Concrete cases of the theorems on the signers and on the start of the attester.
use mathlib.Core.List.Memᴰ.{not-nil, cases_cons}
use miden_usdcx.Prelude.{
  ℕ, suc, ◌≡◌, ◌⊎◌, ◌↔◌, refl, subst, true, none, some, [], ◌∷◌, ok, arith, inl, inr, ◌==◌,
  Bool-cases, str_eq, if◌then◌else◌, bytes_eq, ltb,
}
use miden_usdcx.Burn.{PublicNote}
use miden_usdcx.Signer.{
  Providers, SignerPair, IsOrdered, Names, new_pair, check_expected, new_pair-check_expected,
}
use miden_usdcx.Sql.{select, order_by}
use miden_usdcx.Store.{Store}
use miden_usdcx.Store.Limits.{first_limit_wait, as_wait}
use miden_usdcx.Store.Open.{open_existing, validate_store, open_or_create}
use miden_usdcx.Store.Reads.{decode_block_number, load_candidates, load_burns, decode_all}
use miden_usdcx.Store.Sound.{IsSound}
use miden_usdcx.Attester.Discover.{ChainReader, SignedBlock, check_checkpoint}
use miden_usdcx.Attester.Start.{
  Services, Life, anchor_of, is_pinned, check_services, first_checkpoint, start, live, serves,
  maintains,
}
use miden_usdcx.Attester.Start.Kept.{IsSendable}
use miden_usdcx.Attester.Start.Scan.{Sends}
use miden_usdcx.Attester.Start.Lives.{live_opens}
use miden_usdcx.Attester.Start.Checks.{
  IsPinned, HasCheckpoint, IsAcceptedIfSaved, start-IsPinned, start_succeeds,
}
use miden_usdcx.Witnesses.Data.{note, wire, codec}
use miden_usdcx.Witnesses.Quote.{libraries, config}
use miden_usdcx.Witnesses.Discover.{empty_store, next_block, world}

-- The keys 1 and 2 have the addresses 20 and 10.
abbrev providers : Providers ℕ
providers = record {
  public_key = λ signer. ok signer;
  address = λ key. ok (if key == 1 then 20 else 10);
  from_hex = λ text. if str_eq text "0xaa" then some 1 else some 2;
}

abbrev pair : SignerPair ℕ
pair = record { signers = (2, 1); public_keys = (2, 1) }

built : new_pair providers (1, 2) ≡ ok pair
unfolding new_pair
built = refl

new_pair-check_expected_example :
    IsOrdered providers pair
    × ((check_expected providers ("0xaa" ∷ "0xbb" ∷ []) pair ≡ ok tt)
        ↔ Names providers ("0xaa" ∷ "0xbb" ∷ []) pair)
new_pair-check_expected_example =
    new_pair-check_expected providers 1 2 pair ("0xaa" ∷ "0xbb" ∷ []) built

-- The pinned block, and the one after it, which publishes the burn's note.
abbrev genesis : SignedBlock
genesis = record next_block {
  header = record { block_num = 0; commitment = 0; timestamp = 90 };
  output_notes = [];
}

abbrev first_block : SignedBlock
first_block = record next_block {
  header = record { block_num = 1; commitment = 1; timestamp = 95 };
}

abbrev two_blocks : ChainReader
two_blocks = record {
  scan_limits = ok (record { proof_lag_block = 1; latest_committed_block = 1 });
  block_by_number = λ n. if n == 0 then ok genesis else ok first_block;
  validates = λ child parent. child.header.block_num == suc parent.block_num;
}

genesis-IsSendable : IsSendable codec genesis
genesis-IsSendable = record { in_range = refl; decodes = λ n m. absurd (not-nil m) }

first_block-IsSendable : IsSendable codec first_block
unfolding bytes_eq
first_block-IsSendable = record {
  in_range = refl;
  decodes = λ n m. elim (cases_cons m) [
    | inl same ↦
        let p : note ≡ n = cc in
        subst (λ (n : PublicNote). codec.read_from_bytes (codec.to_bytes n) ≡ some n) p refl
    | inr later ↦ absurd (not-nil later)
  ];
}

two_blocks-Sends : Sends codec two_blocks
two_blocks-Sends n block h = elim (Bool-cases (n == 0)) [
  | inl e ↦ let p : genesis ≡ block = ground arith in subst (IsSendable codec) p genesis-IsSendable
  | inr e ↦
      let p : first_block ≡ block = ground arith in
      subst (IsSendable codec) p first_block-IsSendable
]

abbrev services : Services ℕ
services = record {
  node_connection = ok tt;
  account_exists = λ account. ok (account == 9);
  reader = two_blocks;
  is_consistent = λ block. true;
  providers = providers;
  signers = pair;
  circle_connection = ok tt;
}

abbrev life : Life ℕ
life =
    serves services
      (record { before = []; world = record world { reader = two_blocks }; during_pause = [] } ∷ [])

abbrev command : Life ℕ
command = maintains (record {
  faucet_account_id = 9;
  trusted_anchor = anchor_of config;
  unixepoch = 1000;
  note_ids = 5 ∷ [];
})

live_opens_example :
    (let left = live wire libraries codec ltb config none (life ∷ command ∷ life ∷ []) in
      (s : Store) × (open_or_create codec 9 (anchor_of config) left ≡ ok s)
      × ((left ≡ none) ⊎ (left ≡ some s))
      × IsSound wire s)
live_opens_example =
    live_opens wire libraries codec ltb config refl refl (life ∷ command ∷ life ∷ []) (
      (two_blocks-Sends, (two_blocks-Sends, tt)),
      (tt, ((two_blocks-Sends, (two_blocks-Sends, tt)), tt)),
    )

-- A store whose checkpoint is the pinned block.
abbrev saved_store : Store
saved_store = record empty_store { checkpoint = some genesis.header }

started : (start codec config services (some saved_store)).result ≡ ok tt
unfolding start check_services is_pinned check_expected open_or_create open_existing validate_store
    decode_block_number load_candidates load_burns decode_all order_by select first_limit_wait
    as_wait first_checkpoint check_checkpoint
started = refl

start_succeeds_example :
    ((block : SignedBlock) × IsPinned codec config services block)
    × ((s : Store) × ((start codec config services (some saved_store)).saved ≡ some s)
        × HasCheckpoint codec config services s)
    × IsAcceptedIfSaved codec config services (some saved_store)
start_succeeds_example = start_succeeds codec config services (some saved_store) started

start-IsPinned_example :
    ((start codec config services none).saved ≡ none)
    ⊎ ((block : SignedBlock) × IsPinned codec config services block)
start-IsPinned_example = start-IsPinned codec config services none
