-- ===== src/Store/Open/Scans.antt =====
-- Saving a scanned block leaves a store that `validate_store` of
-- crates/xusdc-light-attester/src/store.rs accepts.
use miden_usdcx.Prelude.{
  ℕ, ◌≡◌, sym, ap, subst, inl, inr, true, false, Option, none, some, List, [], ◌∷◌, ◌++◌, arith,
  All, leb, Result, ok, Bool-cases, Result-cases, ensure, >>=-eq-ok, ◌==◌,
}
use miden_usdcx.Burn.{NoteCodec, BurnCandidate, DiscoveredBurn, into_discovered}
use miden_usdcx.Sql.{find, update, changed}
use miden_usdcx.Store.{Store, StoreError, conflict, BurnRow, BlockHeader, burn_key}
use miden_usdcx.Store.Scan.{
  row_of, insert_all, insert_candidate, insert_burn, is_candidate, consumed_at, may_be_consumed,
  records_are_valid, save_scan_progress,
}
use miden_usdcx.Store.Sound.Scan.{insert_row_lem}
use miden_usdcx.Store.Reads.{max_block, decode_candidate}
use miden_usdcx.Store.Reads.Readable.{Decodes, IsReadable, IsRecognised, row_of-decode}
use miden_usdcx.Store.Open.{TrustedAnchor, is_below}
use miden_usdcx.Store.Open.Opens.{Opens}
use miden_usdcx.Store.Open.Works.{update-IsReadable}

module _ (codec : NoteCodec) (faucet : ℕ) where
  -- A burn of a recognised candidate, consumed at a block whose number is a `u32`.
  pub record IsConsumed (d : DiscoveredBurn) : Type 0 where
    pub candidate : BurnCandidate
    pub recognised : IsRecognised codec faucet candidate
    pub in_range : leb d.consumption_block max_block ≡ true
    pub burn_is : d ≡ into_discovered candidate d.consumption_block

  row_of-Decodes :
      (c : BurnCandidate) (consumed : Option ℕ)
      → IsRecognised codec faucet c
      → ((block : ℕ) → consumed ≡ some block → leb block max_block ≡ true)
      → Decodes codec faucet (row_of codec c.note c.creation_block consumed)
  unfolding row_of
  row_of-Decodes c consumed r small = record {
    value = c;
    candidate = row_of-decode codec faucet c consumed r;
    consumption = small;
  }

  append-IsReadable :
      (rows : List BurnRow) (b : BurnRow)
      → IsReadable codec faucet rows
      → Decodes codec faucet b
      → IsReadable codec faucet (rows ++ b ∷ [])
  append-IsReadable [] b a d = (d, tt)
  append-IsReadable (r ∷ rows) b a d = (a.0, append-IsReadable rows b a.1 d)

  insert_candidate-IsReadable :
      (rows next : List BurnRow) (c : BurnCandidate)
      → insert_candidate codec rows c ≡ ok next
      → IsRecognised codec faucet c
      → IsReadable codec faucet rows
      → IsReadable codec faucet next
  unfolding insert_candidate
  insert_candidate-IsReadable rows next c h r a =
      let row = row_of codec c.note c.creation_block none in
      subst (IsReadable codec faucet) ((insert_row_lem row rows next h).3)
        (append-IsReadable rows row a (row_of-Decodes c none r (λ block e. absurd cc)))

  insert_burn-IsReadable :
      (rows next : List BurnRow) (d : DiscoveredBurn)
      → insert_burn codec rows d ≡ ok next
      → IsConsumed d
      → IsReadable codec faucet rows
      → IsReadable codec faucet next
  unfolding insert_burn decode_candidate
  insert_burn-IsReadable rows next d h r a =
      let k = d.note.id in
      let block = d.consumption_block in
      let c = r.candidate in
      elim (Bool-cases (may_be_consumed block (find burn_key k rows))) [
        | inr refused ↦ absurd (ground arith)
        | inl allowed ↦ elim (Bool-cases (changed burn_key k is_candidate rows == 1)) [
          | inl one ↦
              let p : update burn_key k is_candidate (consumed_at block) rows ≡ next =
                ground arith in
              subst (IsReadable codec faucet) p (
                update-IsReadable codec faucet k is_candidate (consumed_at block) rows
                  (λ b e. record {
                    value = e.value;
                    candidate = e.candidate;
                    consumption = λ n q.
                        let same : block ≡ n = ground arith in
                        subst (λ n. leb n max_block ≡ true) same r.in_range;
                  })
                  a)
          | inr other ↦
              let row = row_of codec d.note d.creation_block (some block) in
              let l = insert_row_lem row rows next (ground arith) in
              let e : row_of codec c.note c.creation_block (some block) ≡ row =
                ap (λ (x : DiscoveredBurn). row_of codec x.note x.creation_block (some block))
                  (sym r.burn_is) in
              subst (IsReadable codec faucet) l.3 (
                append-IsReadable rows row a (
                  subst (Decodes codec faucet) e (
                    row_of-Decodes c (some block) r.recognised (λ n q.
                      let same : block ≡ n = ground arith in
                      subst (λ n. leb n max_block ≡ true) same r.in_range))))
        ]
      ]

  insert_all-IsReadable :
      {A : Type 0} (P : A → Type 0) (insert : List BurnRow → A → Result StoreError (List BurnRow))
      → ((rows next : List BurnRow) (a : A)
          → insert rows a ≡ ok next
          → P a
          → IsReadable codec faucet rows
          → IsReadable codec faucet next)
      → (rows : List BurnRow) (items : List A) (next : List BurnRow)
      → insert_all insert rows items ≡ ok next
      → All P items
      → IsReadable codec faucet rows
      → IsReadable codec faucet next
  unfolding insert_all
  insert_all-IsReadable P insert each rows [] next h p a =
      let q : rows ≡ next = ground arith in subst (IsReadable codec faucet) q a
  insert_all-IsReadable P insert each rows (x ∷ items) next h p a =
      elim (Result-cases (insert rows x)) [
        | inl (mid, e) ↦
            insert_all-IsReadable P insert each mid items next (ground arith) p.1
              (each rows mid x e p.0 a)
        | inr (e, q) ↦ absurd (ground arith)
      ]

  -- Saving recognised candidates, and burns of them, at a block not below the anchor leaves a store
  -- that passes the checks.
  pub save_scan_progress-Opens :
      (anchor : TrustedAnchor) (s t : Store) (candidates : List BurnCandidate)
      (burns : List DiscoveredBurn) (checkpoint : BlockHeader)
      → save_scan_progress codec s candidates burns checkpoint ≡ ok t
      → All (IsRecognised codec faucet) candidates
      → All IsConsumed burns
      → is_below anchor.block_num (some checkpoint) ≡ false
      → Opens codec faucet anchor s
      → Opens codec faucet anchor t
  unfolding save_scan_progress
  save_scan_progress-Opens anchor s t candidates burns checkpoint h cs bs above o =
      let valid = ensure (records_are_valid candidates burns checkpoint.block_num) conflict in
      let (u, hu, h1) = >>=-eq-ok valid _ h in
      let (rows, hr, h2) =
        >>=-eq-ok (insert_all (insert_candidate codec) s.burns candidates) _ h1 in
      let (next, hn, h3) = >>=-eq-ok (insert_all (insert_burn codec) rows burns) _ h2 in
      let p : record s { burns = next; checkpoint = some checkpoint } ≡ t = ground arith in
      subst (Opens codec faucet anchor) p (record {
        faucet_is = o.faucet_is;
        anchor_is = o.anchor_is;
        anchor_small = o.anchor_small;
        readable =
            insert_all-IsReadable IsConsumed (insert_burn codec) insert_burn-IsReadable rows burns
              next hn bs
              (insert_all-IsReadable (IsRecognised codec faucet) (insert_candidate codec)
                insert_candidate-IsReadable s.burns candidates rows hr cs o.readable);
        not_below = above;
      })
