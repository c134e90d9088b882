-- ===== src/Verify/Encoding.antt =====
-- The packed encodings of crates/xusdc-light-attester/src/verify.rs: hook data, transfer specs and
-- burn intents, with big-endian numbers and length prefixes.
use miden_usdcx.Prelude.{
  ℕ, zero, suc, ◌/◌, ◌%◌, ◌^◌, [], ◌∷◌, ◌++◌, Bytes, ltb, length, if◌then◌else◌, Result, ok, err,
  ◌>>=◌,
}
use miden_usdcx.Verify.Types.{
  TransferSpec, Intent, HookData, Libraries, VerifyError, malformed_field,
}

-- `to_be_bytes` of a number of so many bytes.
unfoldable pub be_bytes : ℕ → ℕ → Bytes
be_bytes zero n = []
be_bytes (suc width) n = be_bytes width (n / 256) ++ (n % 256) ∷ []

abbrev u32_bytes : ℕ → Bytes
u32_bytes = be_bytes 4

abbrev word_bytes : ℕ → Bytes
word_bytes = be_bytes 32

unfoldable pub append_with_length : Bytes → Bytes → Result VerifyError Bytes
append_with_length output bytes =
    if ltb (length bytes) (2 ^ 32)
    then ok (output ++ u32_bytes (length bytes) ++ bytes)
    else err (malformed_field "encoded length")

abbrev burn_intent_magic : ℕ
burn_intent_magic = 0x070afbc2

abbrev transfer_spec_magic : ℕ
transfer_spec_magic = 0xca85def7

abbrev hook_data_magic : ℕ
hook_data_magic = 0x6b20f62a

abbrev hook_data_version : ℕ
hook_data_version = 1

-- `HookData::encode`
unfoldable pub encode_hook : HookData → Result VerifyError Bytes
unfolding be_bytes append_with_length
encode_hook h =
    append_with_length
      (u32_bytes hook_data_magic
        ++ (u32_bytes hook_data_version
            ++ (u32_bytes h.remote_domain
                ++ (word_bytes h.remote_token
                    ++ (word_bytes h.remote_depositor ++ word_bytes h.forwarding_contract)))))
      h.forwarding_calldata

-- The part of `TransferSpec::encode` before the hook data.
unfoldable pub spec_fields : TransferSpec → Bytes
unfolding be_bytes
spec_fields s =
    u32_bytes transfer_spec_magic
    ++ (u32_bytes s.version
        ++ (u32_bytes s.source_domain
            ++ (u32_bytes s.destination_domain
                ++ (word_bytes s.source_contract
                    ++ (word_bytes s.destination_contract
                        ++ (word_bytes s.source_token
                            ++ (word_bytes s.destination_token
                                ++ (word_bytes s.source_depositor
                                    ++ (word_bytes s.destination_recipient
                                        ++ (word_bytes s.source_signer
                                            ++ (word_bytes s.destination_caller
                                                ++ (word_bytes s.value
                                                    ++ word_bytes s.salt))))))))))))

-- `TransferSpec::encode`
unfoldable pub encode_spec : TransferSpec → Result VerifyError Bytes
encode_spec s = append_with_length (spec_fields s) s.hook_data

-- `TransferSpec::hash`
unfoldable pub hash_spec : Libraries → TransferSpec → Result VerifyError ℕ
hash_spec l s = do bytes ← encode_spec s; ok (l.keccak256 bytes)

-- `BurnIntent::encode`
unfoldable pub encode_intent : Intent → Result VerifyError Bytes
encode_intent i = do
  spec ← encode_spec i.spec
  append_with_length
      (u32_bytes burn_intent_magic ++ (word_bytes i.max_block_height ++ word_bytes i.max_fee)) spec
