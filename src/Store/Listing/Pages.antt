-- ===== src/Store/Listing/Pages.antt =====
-- An operator who follows the pages of `Operation::List` of
-- crates/xusdc-light-attester/src/attester.rs sees every hold.
use mathlib.Core.List.{append_assoc}
use miden_usdcx.Prelude.{
  ℕ, zero, suc, ◌+◌, ◌≡◌, ◌≤◌, refl, sym, ap, ◌∙◌, subst, inl, inr, Option, none, some, List, [],
  ◌∷◌, ◌++◌, arith, ltb, length, length-append, ◌>>=◌, map, take, ok, Bool-cases,
}
use miden_usdcx.Sql.{select, order_by}
use miden_usdcx.Sql.Apart.{Apart}
use miden_usdcx.Sql.Ascending.{
  by_key, is_above, Ascending, order_by-Ascending, order_by-select, select_after,
}
use miden_usdcx.Store.{Store}
use miden_usdcx.Store.Reads.{last}
use miden_usdcx.Store.Listing.Entries.{
  take_all, take_init, take_two, last_append, split, read_holds-append, read_holds_join,
  length-read_holds, read_hold-row, read_cons,
}
use miden_usdcx.Store.Listing.{
  HeldRow, HoldEntry, row_note, held_rows, is_after, holds_per_page, read_hold, read_holds,
  holds_page, page_of, list_holds,
}

-- Following the cursors from one on, until a page has none, shows these holds.
pub data Follows (s : Store) : Option ℕ → List HoldEntry → Type 0 where
  last_page :
      {after : Option ℕ} {shown : List HoldEntry}
      → list_holds s after ≡ ok (record { holds = shown; next_after = none })
      → Follows s after shown
  more_pages :
      {after : Option ℕ} (shown rest : List HoldEntry) (k : ℕ)
      → list_holds s after ≡ ok (record { holds = shown; next_after = some k })
      → Follows s (some k) rest
      → Follows s after (shown ++ rest)

module _ (s : Store) where
  abbrev sorted : List HeldRow
  sorted = order_by (by_key row_note) (held_rows s)

  abbrev rows_after : Option ℕ → List HeldRow
  rows_after after = order_by (by_key row_note) (select (is_after after) (held_rows s))

  -- The last page shows what is left.
  ends :
      (after : Option ℕ) (later : List HeldRow) (es : List HoldEntry)
      → rows_after after ≡ later
      → length later ≤ holds_per_page
      → read_holds s later ≡ ok es
      → list_holds s after ≡ ok (record { holds = es; next_after = none })
  unfolding list_holds holds_page page_of
  ends after later es at short h =
      let few : length es ≤ holds_per_page = omega (arith, length-read_holds s later es h) in
      let e : read_holds s (take (holds_per_page + 1) (rows_after after)) ≡ ok es =
        ap (λ rows. read_holds s (take (holds_per_page + 1) rows)) at
        ∙ ap (read_holds s) (take_all (holds_per_page + 1) later (omega arith))
        ∙ h in
      ground (arith, e, few)

  page_of_more :
      {init : ℕ} (first : List HoldEntry) (z : HeldRow) (ez ey : HoldEntry)
      → length first ≡ init
      → suc init ≡ holds_per_page
      → ez.row ≡ z
      → page_of (first ++ ez ∷ ey ∷ [])
        ≡ record { holds = first ++ ez ∷ []; next_after = some (row_note z) }
  unfolding page_of
  page_of_more {init} first z ez ey h n same =
      let shown = first ++ ez ∷ [] in
      let full : length shown ≡ holds_per_page =
        omega (arith, length-append first (ez ∷ []), h, n) in
      let many : length (first ++ ez ∷ ey ∷ []) ≡ holds_per_page + 1 =
        omega (arith, length-append first (ez ∷ ey ∷ []), h, n) in
      let taken : take holds_per_page (first ++ ez ∷ ey ∷ []) ≡ shown =
        ap (take holds_per_page) (sym (append_assoc first (ez ∷ []) (ey ∷ [])))
        ∙ take_init holds_per_page shown (ey ∷ []) full in
      let cursor : last shown ≡ some ez = last_append first ez in
      ground (arith, many, taken, cursor, ap row_note same)

  -- Another page shows the next holds, and its cursor is the last of them.
  goes_on :
      (after : Option ℕ) (init rest : List HeldRow) (z y : HeldRow) (first : List HoldEntry)
      (ez ey : HoldEntry)
      → rows_after after ≡ init ++ z ∷ y ∷ rest
      → suc (length init) ≡ holds_per_page
      → read_holds s init ≡ ok first
      → read_hold s z ≡ ok ez
      → read_hold s y ≡ ok ey
      → list_holds s after
        ≡ ok (record { holds = first ++ ez ∷ []; next_after = some (row_note z) })
  unfolding list_holds holds_page read_holds
  goes_on after init rest z y first ez ey at n p q r =
      let count : suc (suc (length init)) ≡ holds_per_page + 1 = omega (arith, n) in
      let taken : take (holds_per_page + 1) (rows_after after) ≡ init ++ z ∷ y ∷ [] =
        ap (take (holds_per_page + 1)) at
        ∙ ap (λ k. take k (init ++ z ∷ y ∷ rest)) (sym count)
        ∙ take_two (length init) init rest z y refl in
      let two : read_holds s (z ∷ y ∷ []) ≡ ok (ez ∷ ey ∷ []) = ground arith in
      let e : read_holds s (take (holds_per_page + 1) (rows_after after))
          ≡ ok (first ++ ez ∷ ey ∷ []) =
        ap (read_holds s) taken ∙ read_holds_join s init (z ∷ y ∷ []) first (ez ∷ ey ∷ []) p two in
      let page =
        page_of_more first z ez ey (length-read_holds s init first p) n (read_hold-row s z ez q) in
      ap (λ holds. holds >>= λ es. ok (page_of es)) e ∙ ap ok page

  -- What the cursor of a page leads to.
  rows_after_cursor :
      (before rest : List HeldRow) (z : HeldRow)
      → Apart row_note (held_rows s)
      → sorted ≡ before ++ z ∷ rest
      → rows_after (some (row_note z)) ≡ rest
  rows_after_cursor before rest z apart e =
      order_by-select row_note (is_above row_note (row_note z)) (held_rows s) apart
      ∙ ap (select (is_above row_note (row_note z))) e
      ∙ select_after row_note before z rest
          (subst (Ascending row_note) e (order_by-Ascending row_note (held_rows s) apart))

  -- One page, and what the following ones show.
  turn_page :
      (before later init rest : List HeldRow) (z y : HeldRow) (es : List HoldEntry)
      (after : Option ℕ)
      → Apart row_note (held_rows s)
      → sorted ≡ before ++ later
      → rows_after after ≡ later
      → read_holds s later ≡ ok es
      → later ≡ init ++ z ∷ y ∷ rest
      → suc (length init) ≡ holds_per_page
      → ((shown : List HeldRow) (left : List HoldEntry)
          → sorted ≡ shown ++ y ∷ rest
          → rows_after (some (row_note z)) ≡ y ∷ rest
          → read_holds s (y ∷ rest) ≡ ok left
          → Follows s (some (row_note z)) left)
      → Follows s after es
  turn_page before later init rest z y es after apart whole at h e len others =
      let (first, second, p, q, r) =
        read_holds-append s init (z ∷ y ∷ rest) es
          (subst (λ rows. read_holds s rows ≡ ok es) e h) in
      let (ez, left, f, g, t) = read_cons s z (y ∷ rest) second q in
      let (ey, left', f', g', t') = read_cons s y rest left g in
      let page = goes_on after init rest z y first ez ey (at ∙ e) len p f f' in
      let all_rows : sorted ≡ (before ++ init) ++ z ∷ y ∷ rest =
        whole ∙ ap (λ rows. before ++ rows) e ∙ sym (append_assoc before init (z ∷ y ∷ rest)) in
      let left_shown =
        others ((before ++ init) ++ z ∷ []) left
          (all_rows ∙ sym (append_assoc (before ++ init) (z ∷ []) (y ∷ rest)))
          (rows_after_cursor (before ++ init) (y ∷ rest) z apart all_rows) g in
      subst (Follows s after)
        (sym (r ∙ ap (λ rest. first ++ rest) t ∙ sym (append_assoc first (ez ∷ []) left)))
        (more_pages (first ++ ez ∷ []) left (row_note z) page left_shown)

  follows :
      (n : ℕ) (before later : List HeldRow) (es : List HoldEntry) (after : Option ℕ)
      → length later ≤ n
      → Apart row_note (held_rows s)
      → sorted ≡ before ++ later
      → rows_after after ≡ later
      → read_holds s later ≡ ok es
      → Follows s after es
  follows zero before later es after small apart whole at h =
      last_page (ends after later es at (omega arith) h)
  follows (suc n) before later es after small apart whole at h =
      elim (Bool-cases (ltb holds_per_page (length later))) [
        | inr short ↦ last_page (ends after later es at (ground arith) h)
        | inl more ↦
            let (init, z, y, rest, e, len) = split 99 later (ground arith) in
            let fewer : length (y ∷ rest) ≤ n =
              omega (arith, ap length e, length-append init (z ∷ y ∷ rest)) in
            turn_page before later init rest z y es after apart whole at h e (omega (arith, len))
              (λ shown left w a g.
                follows n shown (y ∷ rest) left (some (row_note z)) fewer apart w a g)
      ]

  select_everything : (rows : List HeldRow) → select (is_after none) rows ≡ rows
  unfolding select
  select_everything [] = refl
  select_everything (row ∷ rows) = ap (λ rest. row ∷ rest) (select_everything rows)

  rows_of-read_holds :
      (rows : List HeldRow) (es : List HoldEntry)
      → read_holds s rows ≡ ok es
      → map (λ (e : HoldEntry). e.row) es ≡ rows
  unfolding read_holds
  rows_of-read_holds [] es h =
      let p : es ≡ [] = ground arith in ap (map (λ (e : HoldEntry). e.row)) p
  rows_of-read_holds (x ∷ rows) es h =
      let (e, left, f, g, t) = read_cons s x rows es h in
      let p = rows_of-read_holds rows left g in
      ap (map (λ (e : HoldEntry). e.row)) t
      ∙ ap (λ row. row ∷ map (λ (e : HoldEntry). e.row) left) (read_hold-row s x e f)
      ∙ ap (λ rest. x ∷ rest) p

  -- If no two holds are of one note, and the history of every held note has a row with a positive
  -- number, an operator who follows the cursors from the first page comes to a last one, and is
  -- shown every hold once, in the order of the notes.
  pub list_holds-Follows :
      (es : List HoldEntry)
      → Apart row_note (held_rows s)
      → read_holds s (order_by (by_key row_note) (held_rows s)) ≡ ok es
      → Follows s none es
        × (map (λ (e : HoldEntry). e.row) es ≡ order_by (by_key row_note) (held_rows s))
  list_holds-Follows es apart h = (
    follows (length sorted) [] sorted es none (omega arith) apart refl
        (ap (order_by (by_key row_note)) (select_everything (held_rows s))) h,
    rows_of-read_holds sorted es h,
  )
