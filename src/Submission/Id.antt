-- ===== src/Submission/Id.antt =====
-- `is_well_formed_id` of crates/xusdc-light-attester/src/submission.rs: the hyphenated UUID form.
use Prim.Native.Char.{code}
use miden_usdcx.Prelude.{
  ℕ, ◌+◌, String, Bool, true, false, ◌&&◌, ◌||◌, List, [], ◌∷◌, Bytes, leb, ◌==◌, if◌then◌else◌,
  length,
}

-- The characters of a text. A character outside ASCII is one number here and several bytes in the
-- source; both forms of the ID test refuse it, and both case-insensitive comparisons keep it.
abbrev pub codes : String → List ℕ
codes String.[] = []
codes (String.◌∷◌ c s) = code c ∷ codes s

-- `u8::is_ascii_hexdigit`
unfoldable pub is_hex : ℕ → Bool
is_hex b = (leb b'0' b && leb b b'9') || ((leb b'a' b && leb b b'f') || (leb b'A' b && leb b b'F'))

-- The byte that may stand at an index.
unfoldable pub id_byte : ℕ → ℕ → Bool
unfolding is_hex
id_byte index byte =
    if index == 8 || (index == 13 || (index == 18 || index == 23))
    then byte == b'-'
    else is_hex byte

unfoldable pub id_bytes : ℕ → Bytes → Bool
unfolding id_byte
id_bytes index [] = true
id_bytes index (b ∷ bs) = id_byte index b && id_bytes (index + 1) bs

unfoldable pub is_well_formed_bytes : Bytes → Bool
unfolding id_bytes
is_well_formed_bytes bs = length bs == 36 && id_bytes 0 bs

unfoldable pub is_well_formed_id : String → Bool
unfolding is_well_formed_bytes
is_well_formed_id id = is_well_formed_bytes (codes id)

-- `eq_ignore_ascii_case`
unfoldable pub lower : ℕ → ℕ
lower b = if leb b'A' b && leb b b'Z' then b + 32 else b

unfoldable pub same_letters : List ℕ → List ℕ → Bool
unfolding lower
same_letters [] [] = true
same_letters (a ∷ xs) (b ∷ ys) = lower a == lower b && same_letters xs ys
same_letters _ _ = false
