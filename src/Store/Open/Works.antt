-- ===== src/Store/Open/Works.antt =====
-- Work on a note leaves a store that `validate_store` of crates/xusdc-light-attester/src/store.rs
-- accepts.
use miden_usdcx.Prelude.{
  ok, ℕ, ◌≡◌, sym, ◌∙◌, ap, subst, inl, inr, Bool, true, Option, List, [], ◌∷◌, Bool-cases, Bytes,
  Result, map_err, ◌>>=◌, ◌&&◌, ◌==◌,
}
use miden_usdcx.Circle.{Wire}
use miden_usdcx.Burn.{NoteCodec, BurnCandidate, new_candidate}
use miden_usdcx.Sql.{update}
use miden_usdcx.Store.{Store, StoreError, BurnRow, burn_key}
use miden_usdcx.Store.Sound.{IsSound}
use miden_usdcx.Store.Reads.{not_a_burn, decode_note, decode_block_number, decode_candidate}
use miden_usdcx.Store.Reads.Readable.{Decodes, IsReadable}
use miden_usdcx.Store.Steps.{Reach-IsSound}
use miden_usdcx.Store.Steps.Works.{
  Works, Works-Reach, still, work, scanned_columns, KeepsScan, KeepsScanned, Step-KeepsScan,
  release_hold-KeepsScan,
}
use miden_usdcx.Store.Holds.{Released, release_holds, btree_set}
use miden_usdcx.Store.Sound.Holds.{release_hold-IsSound, release_each_keeps}
use miden_usdcx.Store.Open.{TrustedAnchor, is_below}
use miden_usdcx.Store.Open.Opens.{Opens}

module _ (codec : NoteCodec) (faucet : ℕ) where
  abbrev decode_columns : ℕ × ℕ × Bytes × ℕ × Option ℕ → Result StoreError BurnCandidate
  decode_columns c = do
    note ← decode_note codec c.2 c.0 c.1
    creation_block ← decode_block_number c.3
    map_err not_a_burn (new_candidate codec note creation_block faucet)

  -- A row decodes by the columns that only the scan writes.
  Decodes-scanned :
      (b c : BurnRow)
      → scanned_columns c ≡ scanned_columns b
      → Decodes codec faucet b
      → Decodes codec faucet c
  unfolding decode_candidate
  Decodes-scanned b c p d = record {
    value = d.value;
    candidate = ap decode_columns p ∙ d.candidate;
    consumption = λ block e. d.consumption block (sym (ap (λ x. x.4) p) ∙ e);
  }

  pub update-IsReadable :
      (k : ℕ) (cond : BurnRow → Bool) (f : BurnRow → BurnRow) (rows : List BurnRow)
      → ((b : BurnRow) → Decodes codec faucet b → Decodes codec faucet (f b))
      → IsReadable codec faucet rows
      → IsReadable codec faucet (update burn_key k cond f rows)
  unfolding update
  update-IsReadable k cond f [] each a = tt
  update-IsReadable k cond f (b ∷ rows) each a =
      let rest = update-IsReadable k cond f rows each a.1 in
      elim (Bool-cases (b.note_id == k && cond b)) [
        | inl e ↦ rw e (each b a.0, rest)
        | inr e ↦ rw e (a.0, rest)
      ]

  KeepsScanned-IsReadable :
      (rows after : List BurnRow)
      → KeepsScanned rows after
      → IsReadable codec faucet rows
      → IsReadable codec faucet after
  KeepsScanned-IsReadable rows after (inl p) a = subst (IsReadable codec faucet) (sym p) a
  KeepsScanned-IsReadable rows after (inr (k, cond, f, same, p)) a =
      subst (IsReadable codec faucet) (sym p)
        (update-IsReadable k cond f rows (λ b d. Decodes-scanned b (f b) (same b) d) a)

  pub KeepsScan-Opens :
      (anchor : TrustedAnchor) (s t : Store)
      → KeepsScan s t
      → Opens codec faucet anchor s
      → Opens codec faucet anchor t
  KeepsScan-Opens anchor s t keeps o =
      let p = keeps.state in
      record {
        faucet_is = ap (λ x. x.0) p ∙ o.faucet_is;
        anchor_is = (ap (λ x. x.1) p ∙ o.anchor_is.0, ap (λ x. x.2) p ∙ o.anchor_is.1);
        anchor_small = o.anchor_small;
        readable = KeepsScanned-IsReadable s.burns t.burns keeps.burns o.readable;
        not_below = ap (λ x. is_below anchor.block_num x.3) p ∙ o.not_below;
      }

-- Work on a note of a well-formed store that passes the checks leaves one that does.
pub Works-Opens :
    {w : Wire} {codec : NoteCodec} {k : ℕ} {s t : Store} (faucet : ℕ) (anchor : TrustedAnchor)
    → w.status_is_valid 400 ≡ true
    → Works w codec k s t
    → IsSound w s
    → Opens codec faucet anchor s
    → Opens codec faucet anchor t
Works-Opens faucet anchor known still v o = o
Works-Opens {codec = codec} {k = k} faucet anchor known (work r st touches) v o =
    let sound = Reach-IsSound known (Works-Reach r) v in
    KeepsScan-Opens codec faucet anchor _ _ (Step-KeepsScan k st touches sound.submission_keys)
      (Works-Opens faucet anchor known r v o)

-- Releasing many holds leaves such a store, and a well-formed one.
pub release_holds-Opens :
    {w : Wire} (codec : NoteCodec) (faucet : ℕ) (anchor : TrustedAnchor) (s : Store)
    (before : ℕ → ℕ → Bool) (now : ℕ) (ks : List ℕ) (p : Store × Released)
    → release_holds before s now ks ≡ ok p
    → IsSound w s × Opens codec faucet anchor s
    → IsSound w p.0 × Opens codec faucet anchor p.0
unfolding release_holds
release_holds-Opens {w} codec faucet anchor s before now ks p h =
    release_each_keeps (λ t. IsSound w t × Opens codec faucet anchor t) now
      (λ t k q e v. (
        release_hold-IsSound now k true q e v.0,
        KeepsScan-Opens codec faucet anchor t q.0 (release_hold-KeepsScan t now k true q e) v.1,
      ))
      s (btree_set before ks) _ p h
