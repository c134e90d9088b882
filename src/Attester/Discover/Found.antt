-- ===== src/Attester/Discover/Found.antt =====
-- What `find_burns_in_block` of crates/xusdc-light-attester/src/attester.rs finds, said without its
-- loops.
use mathlib.Core.List.{Memᴰ}
use mathlib.Core.List.Memᴰ.{
  head, tail, append_left, append_right, append_cases, not-nil, cases_cons,
}
use miden_usdcx.Prelude.{
  ℕ, ◌≡◌, ◌⊎◌, ◌↔◌, refl, sym, ap, ◌∙◌, subst, inl, inr, true, false, none, some, List, [], ◌∷◌,
  ◌++◌, arith, Result, ok, Result-cases, Bool-cases, Option-cases, >>=-eq-ok, ◌==◌, if◌then◌else◌,
}
use miden_usdcx.Burn.{
  NoteCodec, PublicNote, BurnCandidate, DiscoveredBurn, new_candidate, into_discovered,
}
use miden_usdcx.Store.{Store, StoreError}
use miden_usdcx.Store.Reads.{note_known, candidate_by_nullifier}
use miden_usdcx.Attester.Discover.{
  OutputNote, public_note, private_note, Transaction, SignedBlock, find_candidates, find_consumed,
  find_burned, find_burns_in_block,
}

module _ (codec : NoteCodec) (faucet : ℕ) (s : Store) (block : ℕ) where
  -- A candidate that a block's notes publish: an xUSDC burn that the store does not know.
  abbrev pub IsPublished : List OutputNote → BurnCandidate → Type 0
  IsPublished notes c =
      (note : PublicNote) × Memᴰ (public_note note) notes
      × (new_candidate codec note block faucet ≡ ok c)
      × (note_known s c.note.id ≡ false)

  -- A burn of a saved candidate whose nullifier is among these.
  abbrev pub IsSpent : List ℕ → DiscoveredBurn → Type 0
  IsSpent nullifiers d =
      (n : ℕ) × Memᴰ n nullifiers
      × ((c : BurnCandidate) × (candidate_by_nullifier codec s faucet n ≡ ok (some c))
          × (d ≡ into_discovered c block))

  -- A burn of a saved candidate that an input of a transaction of the faucet consumed.
  abbrev pub IsBurned : List Transaction → DiscoveredBurn → Type 0
  IsBurned transactions d =
      (transaction : Transaction) × Memᴰ transaction transactions
      × (transaction.account_id ≡ faucet)
      × IsSpent transaction.input_nullifiers d

  IsPublished-tail :
      (x : OutputNote) (notes : List OutputNote) (c : BurnCandidate)
      → IsPublished notes c
      → IsPublished (x ∷ notes) c
  IsPublished-tail x notes c (note, m, e, f) = (note, tail m, e, f)

  -- What one public note adds to the rest.
  after_note :
      (note : PublicNote) (notes : List OutputNote)
      → (let all_found = find_candidates codec faucet s block (public_note note ∷ notes) in
          let rest = find_candidates codec faucet s block notes in
          ((all_found ≡ rest)
            × ((c : BurnCandidate)
                → new_candidate codec note block faucet ≡ ok c
                → note_known s c.note.id ≡ true))
          ⊎ ((d : BurnCandidate) × (new_candidate codec note block faucet ≡ ok d)
              × (note_known s d.note.id ≡ false)
              × (all_found ≡ d ∷ rest)))
  unfolding find_candidates
  after_note note notes = elim (Result-cases (new_candidate codec note block faucet)) [
    | inr (x, e) ↦ inl (ground arith, λ c q. absurd cc)
    | inl (d, e) ↦ elim (Bool-cases (note_known s d.note.id)) [
      | inl f ↦ inl (ground arith, λ c q. ground arith)
      | inr f ↦ inr (d, e, f, ground arith)
    ]
  ]

  find_candidates_sound :
      (notes : List OutputNote) (c : BurnCandidate)
      → Memᴰ c (find_candidates codec faucet s block notes)
      → IsPublished notes c
  unfolding find_candidates
  find_candidates_sound [] c m = absurd (not-nil m)
  find_candidates_sound (private_note ∷ notes) c m =
      IsPublished-tail private_note notes c (find_candidates_sound notes c m)
  find_candidates_sound (public_note note ∷ notes) c m = elim (after_note note notes) [
    | inl (p, known) ↦
        IsPublished-tail (public_note note) notes c
          (find_candidates_sound notes c (subst (Memᴰ c) p m))
    | inr (d, e, f, p) ↦ elim (cases_cons (subst (Memᴰ c) p m)) [
      | inl same ↦
          (note, head refl, e ∙ ap ok (sym same), ap (λ x. note_known s x.note.id) same ∙ f)
      | inr later ↦
          IsPublished-tail (public_note note) notes c (find_candidates_sound notes c later)
    ]
  ]

  find_candidates_complete :
      (notes : List OutputNote) (c : BurnCandidate)
      → IsPublished notes c
      → Memᴰ c (find_candidates codec faucet s block notes)
  unfolding find_candidates
  find_candidates_complete [] c (note, m, e, f) = absurd (not-nil m)
  find_candidates_complete (private_note ∷ notes) c (note, m, e, f) = elim (cases_cons m) [
    | inl p ↦ cc
    | inr m' ↦ find_candidates_complete notes c (note, m', e, f)
  ]
  find_candidates_complete (public_note x ∷ notes) c (note, m, e, f) = elim (after_note x notes) [
    | inl (p, known) ↦ subst (Memᴰ c) (sym p) (elim (cases_cons m) [
      | inr m' ↦ find_candidates_complete notes c (note, m', e, f)
      | inl q ↦ absurd (ground (arith, known c))
    ])
    | inr (d, g, k, p) ↦ subst (Memᴰ c) (sym p) (elim (cases_cons m) [
      | inr m' ↦ tail (find_candidates_complete notes c (note, m', e, f))
      | inl q ↦ head cc
    ])
  ]

  find_consumed_sound :
      (nullifiers : List ℕ) (burns : List DiscoveredBurn) (d : DiscoveredBurn)
      → find_consumed codec faucet s block nullifiers ≡ ok burns
      → Memᴰ d burns
      → IsSpent nullifiers d
  unfolding find_consumed
  find_consumed_sound [] burns d h m =
      absurd (not-nil (let p : burns ≡ [] = ground arith in subst (Memᴰ d) p m))
  find_consumed_sound (n ∷ rest) burns d h m =
      let (candidate, e, h1) = >>=-eq-ok (candidate_by_nullifier codec s faucet n) _ h in
      let (found, f, h2) = >>=-eq-ok (find_consumed codec faucet s block rest) _ h1 in
      let later : Memᴰ d found → IsSpent (n ∷ rest) d =
        λ m'. let (k, q, a) = find_consumed_sound rest found d f m' in (k, tail q, a) in
      elim (Option-cases candidate) [
        | inl g ↦ later (let p : burns ≡ found = ground arith in subst (Memᴰ d) p m)
        | inr (c, g) ↦
            elim (cases_cons (
              let p : burns ≡ into_discovered c block ∷ found = ground arith in
              subst (Memᴰ d) p m)) [
                | inl same ↦ (n, head refl, (c, e ∙ ap ok g, same))
                | inr m' ↦ later m'
              ]
      ]

  find_consumed_complete :
      (nullifiers : List ℕ) (burns : List DiscoveredBurn) (d : DiscoveredBurn)
      → find_consumed codec faucet s block nullifiers ≡ ok burns
      → IsSpent nullifiers d
      → Memᴰ d burns
  unfolding find_consumed
  find_consumed_complete [] burns d h (n, m, a) = absurd (not-nil m)
  find_consumed_complete (x ∷ rest) burns d h (n, m, (k, b, same)) =
      let (candidate, e, h1) = >>=-eq-ok (candidate_by_nullifier codec s faucet x) _ h in
      let (found, f, h2) = >>=-eq-ok (find_consumed codec faucet s block rest) _ h1 in
      let later =
        λ (m' : Memᴰ n rest). find_consumed_complete rest found d f (n, m', (k, b, same)) in
      elim (Option-cases candidate) [
        | inl g ↦
            let p : found ≡ burns = ground arith in
            subst (Memᴰ d) p (elim (cases_cons m) [
              | inl q ↦ absurd (
                  let r : ok (some k) ≡ ok none =
                    sym b ∙ ap (λ j. candidate_by_nullifier codec s faucet j) q ∙ e ∙ ap ok g in
                  cc)
              | inr m' ↦ later m'
            ])
        | inr (c, g) ↦
            let p : into_discovered c block ∷ found ≡ burns = ground arith in
            subst (Memᴰ d) p (elim (cases_cons m) [
              | inl q ↦ head (
                  let r : ok (some k) ≡ ok (some c) =
                    sym b ∙ ap (λ j. candidate_by_nullifier codec s faucet j) q ∙ e ∙ ap ok g in
                  let t : k ≡ c = cc in same ∙ ap (λ j. into_discovered j block) t)
              | inr m' ↦ tail (later m')
            ])
      ]

  -- The result of one transaction, before the rest.
  of_transaction : Transaction → Result StoreError (List DiscoveredBurn)
  of_transaction t =
      if t.account_id == faucet
      then find_consumed codec faucet s block t.input_nullifiers
      else ok []

  find_burned_sound :
      (transactions : List Transaction) (burns : List DiscoveredBurn) (d : DiscoveredBurn)
      → find_burned codec faucet s block transactions ≡ ok burns
      → Memᴰ d burns
      → IsBurned transactions d
  unfolding find_burned of_transaction
  find_burned_sound [] burns d h m =
      absurd (not-nil (let p : burns ≡ [] = ground arith in subst (Memᴰ d) p m))
  find_burned_sound (t ∷ rest) burns d h m =
      let (found, e, h1) = >>=-eq-ok (of_transaction t) _ h in
      let (others, f, h2) = >>=-eq-ok (find_burned codec faucet s block rest) _ h1 in
      let p : burns ≡ found ++ others = ground arith in
      elim (append_cases found (subst (Memᴰ d) p m)) [
        | inr m' ↦ let (u, q, a, b) = find_burned_sound rest others d f m' in (u, tail q, a, b)
        | inl m' ↦ elim (Bool-cases (t.account_id == faucet)) [
          | inl mine ↦ (
            t,
            head refl,
            ground arith,
            find_consumed_sound t.input_nullifiers found d (ground arith) m',
          )
          | inr other ↦ absurd (not-nil (let q : found ≡ [] = ground arith in subst (Memᴰ d) q m'))
        ]
      ]

  find_burned_complete :
      (transactions : List Transaction) (burns : List DiscoveredBurn) (d : DiscoveredBurn)
      → find_burned codec faucet s block transactions ≡ ok burns
      → IsBurned transactions d
      → Memᴰ d burns
  unfolding find_burned of_transaction
  find_burned_complete [] burns d h (t, m, mine, spent) = absurd (not-nil m)
  find_burned_complete (x ∷ rest) burns d h (t, m, mine, spent) =
      let (found, e, h1) = >>=-eq-ok (of_transaction x) _ h in
      let (others, f, h2) = >>=-eq-ok (find_burned codec faucet s block rest) _ h1 in
      let p : found ++ others ≡ burns = ground arith in
      subst (Memᴰ d) p (elim (cases_cons m) [
        | inr m' ↦ append_right found (find_burned_complete rest others d f (t, m', mine, spent))
        | inl q ↦
            let same : find_consumed codec faucet s block x.input_nullifiers ≡ ok found =
              ground (arith, ap (λ (u : Transaction). u.account_id) q) in
            append_left others (
              find_consumed_complete x.input_nullifiers found d same
                (subst (λ (u : Transaction). IsSpent u.input_nullifiers d) q spent))
      ])

-- If the reads succeed, what is found in a block is exactly what is new in it: the candidates are
-- those that a public note of the block makes and the store does not know, and the burns are
-- those of saved candidates whose nullifier is an input of one of the faucet's own transactions
-- in the block.
pub find_burns_in_block_lem :
    (codec : NoteCodec) (faucet : ℕ) (block : SignedBlock) (s : Store)
    (candidates : List BurnCandidate) (burns : List DiscoveredBurn)
    → find_burns_in_block codec faucet block s ≡ ok (candidates, burns)
    → ((c : BurnCandidate)
        → Memᴰ c candidates
          ↔ IsPublished codec faucet s block.header.block_num block.output_notes c)
      × ((d : DiscoveredBurn)
          → Memᴰ d burns ↔ IsBurned codec faucet s block.header.block_num block.transactions d)
unfolding find_burns_in_block
find_burns_in_block_lem codec faucet block s candidates burns h =
    let n = block.header.block_num in
    let (found, e, h1) = >>=-eq-ok (find_burned codec faucet s n block.transactions) _ h in
    let p : find_candidates codec faucet s n block.output_notes ≡ candidates = ground arith in
    let same : find_burned codec faucet s n block.transactions ≡ ok burns = ground arith in
    (
      λ c. (
        λ m. find_candidates_sound codec faucet s n block.output_notes c (subst (Memᴰ c) (sym p) m),
        λ q. subst (Memᴰ c) p (find_candidates_complete codec faucet s n block.output_notes c q),
      ),
      λ d. (
        find_burned_sound codec faucet s n block.transactions burns d same,
        find_burned_complete codec faucet s n block.transactions burns d same,
      ),
    )
