-- ===== src/Store/Listing/Entries.antt =====
-- The rows that a page of holds is read from: the start of a list, and the entries read of its rows.
use miden_usdcx.Prelude.{
  ℕ, zero, suc, ◌≡◌, ◌≤◌, ◌<◌, refl, sym, ap, ◌∙◌, subst, some, List, [], ◌∷◌, ◌++◌, arith, length,
  take, ok, >>=-eq-ok,
}
use miden_usdcx.Store.{Store}
use miden_usdcx.Store.Reads.{last}
use miden_usdcx.Store.Listing.{HeldRow, HoldEntry, read_hold, read_holds}

module _ {A : Type 0} where
  pub take_all : (n : ℕ) (xs : List A) → length xs ≤ n → take n xs ≡ xs
  unfolding take
  take_all zero [] h = refl
  take_all zero (x ∷ xs) h = absurd (omega arith)
  take_all (suc n) [] h = refl
  take_all (suc n) (x ∷ xs) h = ap (λ rest. x ∷ rest) (take_all n xs (omega arith))

  pub take_init : (m : ℕ) (xs ys : List A) → length xs ≡ m → take m (xs ++ ys) ≡ xs
  unfolding take
  take_init zero [] ys h = refl
  take_init zero (x ∷ xs) ys h = absurd (omega (arith, h))
  take_init (suc m) [] ys h = absurd (omega (arith, h))
  take_init (suc m) (x ∷ xs) ys h = ap (λ rest. x ∷ rest) (take_init m xs ys (omega (arith, h)))

  pub take_two :
      (m : ℕ) (xs rest : List A) (z y : A)
      → length xs ≡ m
      → take (suc (suc m)) (xs ++ z ∷ y ∷ rest) ≡ xs ++ z ∷ y ∷ []
  unfolding take
  take_two zero [] rest z y h = refl
  take_two zero (x ∷ xs) rest z y h = absurd (omega (arith, h))
  take_two (suc m) [] rest z y h = absurd (omega (arith, h))
  take_two (suc m) (x ∷ xs) rest z y h =
      ap (λ rest. x ∷ rest) (take_two m xs rest z y (omega (arith, h)))

  pub last_append : (xs : List A) (x : A) → last (xs ++ x ∷ []) ≡ some x
  unfolding last
  last_append [] x = refl
  last_append (a ∷ []) x = refl
  last_append (a ∷ b ∷ xs) x = last_append (b ∷ xs) x

  -- More than so many rows: as many, one more of them shown, and the rest.
  pub split :
      (m : ℕ) (xs : List A)
      → suc m < length xs
      → (init : List A) × (z : A) × (y : A) × (rest : List A) × (xs ≡ init ++ z ∷ y ∷ rest)
        × (length init ≡ m)
  split m [] h = absurd (omega arith)
  split m (x ∷ []) h = absurd (omega arith)
  split zero (x ∷ y ∷ xs) h = ([], x, y, xs, refl, refl)
  split (suc m) (x ∷ y ∷ xs) h =
      let (init, z, a, rest, e, n) = split m (y ∷ xs) (omega arith) in
      (x ∷ init, z, a, rest, ap (λ t. x ∷ t) e, ap suc n)

module _ (s : Store) where
  pub read_holds-append :
      (xs ys : List HeldRow) (es : List HoldEntry)
      → read_holds s (xs ++ ys) ≡ ok es
      → (first : List HoldEntry) × (second : List HoldEntry) × (read_holds s xs ≡ ok first)
        × (read_holds s ys ≡ ok second)
        × (es ≡ first ++ second)
  unfolding read_holds
  read_holds-append [] ys es h = ([], es, refl, h, refl)
  read_holds-append (x ∷ xs) ys es h =
      let (e, f, h1) = >>=-eq-ok (read_hold s x) _ h in
      let (rest, g, h2) = >>=-eq-ok (read_holds s (xs ++ ys)) _ h1 in
      let (first, second, p, q, r) = read_holds-append xs ys rest g in
      (
        e ∷ first,
        second,
        ground arith,
        q,
        let t : es ≡ e ∷ rest = ground arith in t ∙ ap (λ t. e ∷ t) r,
      )

  pub read_holds_join :
      (xs ys : List HeldRow) (first second : List HoldEntry)
      → read_holds s xs ≡ ok first
      → read_holds s ys ≡ ok second
      → read_holds s (xs ++ ys) ≡ ok (first ++ second)
  unfolding read_holds
  read_holds_join [] ys first second p q =
      let t : [] ≡ first = ground arith in subst (λ f. read_holds s ys ≡ ok (f ++ second)) t q
  read_holds_join (x ∷ xs) ys first second p q =
      let (e, f, h1) = >>=-eq-ok (read_hold s x) _ p in
      let (rest, g, h2) = >>=-eq-ok (read_holds s xs) _ h1 in
      let t : e ∷ rest ≡ first = ground arith in
      let r = read_holds_join xs ys rest second g q in
      subst (λ f. read_holds s (x ∷ xs ++ ys) ≡ ok (f ++ second)) t (ground arith)

  pub length-read_holds :
      (xs : List HeldRow) (es : List HoldEntry) → read_holds s xs ≡ ok es → length es ≡ length xs
  unfolding read_holds
  length-read_holds [] es h = let t : [] ≡ es = ground arith in ap length (sym t)
  length-read_holds (x ∷ xs) es h =
      let (e, f, h1) = >>=-eq-ok (read_hold s x) _ h in
      let (rest, g, h2) = >>=-eq-ok (read_holds s xs) _ h1 in
      let t : e ∷ rest ≡ es = ground arith in
      ap length (sym t) ∙ ap suc (length-read_holds xs rest g)

  pub read_hold-row : (x : HeldRow) (e : HoldEntry) → read_hold s x ≡ ok e → e.row ≡ x
  unfolding read_hold
  read_hold-row x e h = ground arith

  pub read_cons :
      (x : HeldRow) (rows : List HeldRow) (es : List HoldEntry)
      → read_holds s (x ∷ rows) ≡ ok es
      → (e : HoldEntry) × (left : List HoldEntry) × (read_hold s x ≡ ok e)
        × (read_holds s rows ≡ ok left)
        × (es ≡ e ∷ left)
  unfolding read_holds
  read_cons x rows es h =
      let (e, f, h1) = >>=-eq-ok (read_hold s x) _ h in
      let (left, g, h2) = >>=-eq-ok (read_holds s rows) _ h1 in (e, left, f, g, ground arith)
