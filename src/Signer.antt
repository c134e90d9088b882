-- ===== src/Signer.antt =====
-- crates/xusdc-light-attester/src/signer.rs: the pair of signers, ordered by address, and its check
-- against the configured public keys. The providers, the parsing of a key and its address are
-- parameters. A public key is the number of its 33 bytes.
use miden_usdcx.Prelude.{
  ℕ, ◌≤◌, ◌≡◌, ◌≢◌, ◌⊎◌, ◌↔◌, refl, sym, subst, inl, inr, Bool, true, false, not, ◌&&◌, ◌||◌,
  String, Option, some, List, [], ◌∷◌, arith, ◌==◌, ltb, Result, ok, err, ensure, ok_or, map_err,
  ◌>>◌, ◌>>=◌, Bool-cases, Result-cases, >>=-eq-ok,
}

pub data SignerError : Type 0 where
  unreadable same_key invalid_point : SignerError

-- Why `check_expected` refuses.
pub data KeysError : Type 0 where
  not_two invalid_key repeated_key other_keys : KeysError

-- What the code calls of a signing provider and of the curve's library.
pub record Providers (S : Type 0) : Type 0 where
  pub public_key : S → Result SignerError ℕ
  pub address : ℕ → Result SignerError ℕ
  pub from_hex : String → Option ℕ

pub record SignerPair (S : Type 0) : Type 0 where
  pub signers : S × S
  pub public_keys : ℕ × ℕ

abbrev unread : SignerError → SignerError
unread _ = unreadable

-- Two providers with their keys, swapped or not.
abbrev pub in_order : {S : Type 0} → Bool → S × ℕ → S × ℕ → SignerPair S
in_order true (a, first) (b, second) = record { signers = (b, a); public_keys = (second, first) }
in_order false (a, first) (b, second) = record { signers = (a, b); public_keys = (first, second) }

module _ {S : Type 0} (p : Providers S) where
  -- `SignerPair::new`
  unfoldable pub new_pair : S × S → Result SignerError (SignerPair S)
  new_pair (a, b) = do
    first ← map_err unread (p.public_key a)
    second ← map_err unread (p.public_key b)
    ensure (not (first == second)) same_key
    second_address ← p.address second
    first_address ← p.address first
    ok (in_order (ltb second_address first_address) (a, first) (b, second))

  unfoldable pub check_expected : List String → SignerPair S → Result KeysError (Unit {0})
  check_expected (first ∷ second ∷ []) pair = do
    a ← ok_or (p.from_hex first) invalid_key
    b ← ok_or (p.from_hex second) invalid_key
    ensure (not (a == b)) repeated_key
    ensure
        ((pair.public_keys.0 == a || pair.public_keys.0 == b)
          && (pair.public_keys.1 == a || pair.public_keys.1 == b))
        other_keys
  check_expected _ pair = err not_two

  -- The configured keys are the pair's, in either order.
  abbrev pub Names : List String → SignerPair S → Type 0
  Names hex pair =
      (first second : String) × (hex ≡ first ∷ second ∷ [])
      × (((p.from_hex first ≡ some pair.public_keys.0)
            × (p.from_hex second ≡ some pair.public_keys.1))
          ⊎ ((p.from_hex first ≡ some pair.public_keys.1)
              × (p.from_hex second ≡ some pair.public_keys.0)))

  -- Each key is its provider's, they differ, and their addresses do not descend.
  pub record IsOrdered (pair : SignerPair S) : Type 0 where
    pub first : p.public_key pair.signers.0 ≡ ok pair.public_keys.0
    pub second : p.public_key pair.signers.1 ≡ ok pair.public_keys.1
    pub differ : pair.public_keys.0 ≢ pair.public_keys.1
    pub low : ℕ
    pub high : ℕ
    pub first_address : p.address pair.public_keys.0 ≡ ok low
    pub second_address : p.address pair.public_keys.1 ≡ ok high
    pub ascends : low ≤ high

  in_order-IsOrdered :
      (a b : S) (first second first_address second_address : ℕ)
      → p.public_key a ≡ ok first
      → p.public_key b ≡ ok second
      → first ≢ second
      → p.address first ≡ ok first_address
      → p.address second ≡ ok second_address
      → IsOrdered (in_order (ltb second_address first_address) (a, first) (b, second))
  in_order-IsOrdered a b first second first_address second_address e f d g h =
      elim (Bool-cases (ltb second_address first_address)) [
        | inl swap ↦ rw swap (record {
          first = f;
          second = e;
          differ = λ q. d (sym q);
          low = second_address;
          high = first_address;
          first_address = h;
          second_address = g;
          ascends = ground arith;
        })
        | inr keep ↦ rw keep (record {
          first = e;
          second = f;
          differ = d;
          low = first_address;
          high = second_address;
          first_address = g;
          second_address = h;
          ascends = ground arith;
        })
      ]

  new_pair-IsOrdered : (a b : S) (pair : SignerPair S) → new_pair (a, b) ≡ ok pair → IsOrdered pair
  unfolding new_pair
  new_pair-IsOrdered a b pair h = elim (Result-cases (p.public_key a)) [
    | inr (x, e) ↦ absurd (ground arith)
    | inl (first, e) ↦ elim (Result-cases (p.public_key b)) [
      | inr (x, f) ↦ absurd (ground arith)
      | inl (second, f) ↦ elim (Result-cases (p.address second)) [
        | inr (x, g) ↦ absurd (ground arith)
        | inl (second_address, g) ↦ elim (Result-cases (p.address first)) [
          | inr (x, k) ↦ absurd (ground arith)
          | inl (first_address, k) ↦
              let q : in_order (ltb second_address first_address) (a, first) (b, second) ≡ pair =
                ground arith in
              subst IsOrdered q (
                in_order-IsOrdered a b first second first_address second_address e f (ground arith)
                  k g)
        ]
      ]
    ]
  ]

  check_expected-Names :
      (hex : List String) (pair : SignerPair S)
      → pair.public_keys.0 ≢ pair.public_keys.1
      → check_expected hex pair ≡ ok tt
      → Names hex pair
  unfolding check_expected
  check_expected-Names [] pair d h = cc
  check_expected-Names (x ∷ []) pair d h = cc
  check_expected-Names (x ∷ y ∷ z ∷ rest) pair d h = cc
  check_expected-Names (x ∷ y ∷ []) pair d h =
      let (a, e1, h1) = >>=-eq-ok (ok_or (p.from_hex x) invalid_key) _ h in
      let (b, e2, h2) = >>=-eq-ok (ok_or (p.from_hex y) invalid_key) _ h1 in
      let f : p.from_hex x ≡ some a = ground arith in
      let g : p.from_hex y ≡ some b = ground arith in
      elim (Bool-cases (pair.public_keys.0 == a)) [
        | inl q ↦ (x, y, refl, inl (ground arith, ground arith))
        | inr q ↦ (x, y, refl, inr (ground arith, ground arith))
      ]

  Names-check_expected :
      (hex : List String) (pair : SignerPair S)
      → pair.public_keys.0 ≢ pair.public_keys.1
      → Names hex pair
      → check_expected hex pair ≡ ok tt
  unfolding check_expected
  Names-check_expected hex pair d (x, y, e, inl (f, g)) = ground arith
  Names-check_expected hex pair d (x, y, e, inr (f, g)) = ground arith

  -- A pair is built of two providers that report different keys: each key stays with its provider,
  -- and the addresses of the keys do not descend. Such a pair passes the check exactly if two keys
  -- are configured and they are the pair's, in either order.
  pub new_pair-check_expected :
      (a b : S) (pair : SignerPair S) (hex : List String)
      → new_pair (a, b) ≡ ok pair
      → IsOrdered pair × ((check_expected hex pair ≡ ok tt) ↔ Names hex pair)
  new_pair-check_expected a b pair hex h =
      let o = new_pair-IsOrdered a b pair h in
      (o, (check_expected-Names hex pair o.differ, Names-check_expected hex pair o.differ))
