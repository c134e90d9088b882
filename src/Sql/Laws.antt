-- ===== src/Sql/Laws.antt =====
-- What a lookup finds after each statement, in a table whose key is unique.
use miden_usdcx.Prelude.{
  ℕ, ◌≡◌, refl, inl, inr, Bool, true, Option, none, some, List, [], ◌∷◌, ◌++◌, arith, if◌then◌else◌,
  ◌==◌, Bool-cases, All,
}
use miden_usdcx.Sql.{find, update, delete, changed, select}

-- The row under a key, changed if it meets the condition.
abbrev pub updated : {A : Type 0} → (A → Bool) → (A → A) → Option A → Option A
updated cond f none = none
updated cond f (some r) = some (if cond r then f r else r)

-- The row under a key, gone if it meets the condition.
abbrev pub kept : {A : Type 0} → (A → Bool) → Option A → Option A
kept cond none = none
kept cond (some r) = if cond r then none else some r

abbrev pub hits : {A : Type 0} → (A → Bool) → Option A → ℕ
hits cond none = 0
hits cond (some r) = if cond r then 1 else 0

module _ {A : Type 0} (key : A → ℕ) where
  -- PRIMARY KEY or UNIQUE: no two rows share a key.
  abbrev pub Unique : List A → Type 0
  Unique [] = Unit {0}
  Unique (r ∷ rs) = (find key (key r) rs ≡ none) × Unique rs

  pub find-key : (k : ℕ) (rs : List A) (r : A) → find key k rs ≡ some r → key r ≡ k
  unfolding find
  find-key k [] r h = cc
  find-key k (x ∷ rs) r h = ground (arith, find-key k rs r)

  pub find-append :
      (k : ℕ) (rs : List A) (r : A)
      → find key k (rs ++ r ∷ [])
        ≡ (elim (find key k rs) [ none ↦ if key r == k then some r else none | some x ↦ some x ])
  unfolding find
  find-append k [] r = refl
  find-append k (x ∷ rs) r = ground (arith, find-append k rs r)

  pub append-Unique :
      (rs : List A) (r : A) → find key (key r) rs ≡ none → Unique rs → Unique (rs ++ r ∷ [])
  unfolding find
  append-Unique [] r h u = (refl, tt)
  append-Unique (x ∷ rs) r h u =
      (ground (arith, find-append (key x) rs r), append-Unique rs r (ground arith) u.1)

  pub find-update :
      (j k : ℕ) (cond : A → Bool) (f : A → A) (rs : List A)
      → ((r : A) → key r ≡ k → key (f r) ≡ k)
      → find key j (update key k cond f rs)
        ≡ (if j == k then updated cond f (find key j rs) else find key j rs)
  unfolding find update
  find-update j k cond f [] same = ground arith
  find-update j k cond f (x ∷ rs) same = ground (arith, same x, find-update j k cond f rs same)

  pub update-Unique :
      (k : ℕ) (cond : A → Bool) (f : A → A) (rs : List A)
      → ((r : A) → key r ≡ k → key (f r) ≡ k)
      → Unique rs
      → Unique (update key k cond f rs)
  unfolding find update
  update-Unique k cond f [] same u = tt
  update-Unique k cond f (x ∷ rs) same u = (
    ground (arith, same x, find-update (key x) k cond f rs same),
    update-Unique k cond f rs same u.1,
  )

  pub find-delete-none :
      (j k : ℕ) (cond : A → Bool) (rs : List A)
      → find key j rs ≡ none
      → find key j (delete key k cond rs) ≡ none
  unfolding find delete
  find-delete-none j k cond [] h = refl
  find-delete-none j k cond (x ∷ rs) h = ground (arith, find-delete-none j k cond rs)

  pub find-delete :
      (j k : ℕ) (cond : A → Bool) (rs : List A)
      → Unique rs
      → find key j (delete key k cond rs)
        ≡ (if j == k then kept cond (find key j rs) else find key j rs)
  unfolding find delete
  find-delete j k cond [] u = ground arith
  find-delete j k cond (x ∷ rs) u =
      ground (arith, find-delete j k cond rs u.1, find-delete-none j k cond rs)

  pub delete-Unique :
      (k : ℕ) (cond : A → Bool) (rs : List A) → Unique rs → Unique (delete key k cond rs)
  unfolding delete
  delete-Unique k cond [] u = tt
  delete-Unique k cond (x ∷ rs) u =
      ground (arith, delete-Unique k cond rs u.1, find-delete-none (key x) k cond rs)

  pub changed-none :
      (k : ℕ) (cond : A → Bool) (rs : List A) → find key k rs ≡ none → changed key k cond rs ≡ 0
  unfolding find changed
  changed-none k cond [] h = refl
  changed-none k cond (x ∷ rs) h = ground (arith, changed-none k cond rs)

  -- A statement on one key changes at most one row.
  pub changed-hits :
      (k : ℕ) (cond : A → Bool) (rs : List A)
      → Unique rs
      → changed key k cond rs ≡ hits cond (find key k rs)
  unfolding find changed
  changed-hits k cond [] u = refl
  changed-hits k cond (x ∷ rs) u =
      ground (arith, changed-hits k cond rs u.1, changed-none k cond rs)

  -- A row that was selected satisfies the condition, and stands in the table under its key.
  pub find-select :
      (p : A → Bool) (rs : List A)
      → Unique rs
      → All (λ r. (p r ≡ true) × (find key (key r) rs ≡ some r)) (select p rs)
  unfolding find select
  find-select p [] u = tt
  find-select p (x ∷ rs) u = elim (Bool-cases (p x)) [
    | inl e ↦ rw e ((e, ground arith), weaken x rs (select p rs) u (find-select p rs u.1))
    | inr e ↦ rw e (weaken x rs (select p rs) u (find-select p rs u.1))
  ]
    where
      weaken :
          (x : A) (rs ss : List A)
          → Unique (x ∷ rs)
          → All (λ r. (p r ≡ true) × (find key (key r) rs ≡ some r)) ss
          → All (λ r. (p r ≡ true) × (find key (key r) (x ∷ rs) ≡ some r)) ss
      weaken x rs [] u h = tt
      weaken x rs (s ∷ ss) u h = ((h.0.0, ground (arith)), weaken x rs ss u h.1)

-- A second unique column, which the statement does not write.
module _ {A : Type 0} (key other : A → ℕ) (k : ℕ) (cond : A → Bool) (f : A → A)
    (same : (r : A) → other (f r) ≡ other r) where
  find-update_other :
      (j : ℕ) (rs : List A) → find other j rs ≡ none → find other j (update key k cond f rs) ≡ none
  unfolding find update
  find-update_other j [] h = refl
  find-update_other j (x ∷ rs) h = ground (arith, same x, find-update_other j rs)

  pub update-Unique_other : (rs : List A) → Unique other rs → Unique other (update key k cond f rs)
  unfolding find update
  update-Unique_other [] u = tt
  update-Unique_other (x ∷ rs) u =
      (ground (arith, same x, find-update_other (other x) rs u.0), update-Unique_other rs u.1)
