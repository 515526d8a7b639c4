-- ===== src/Table.antt =====
-- A database table as the list of its rows, with the three statements that app/repository.py and
-- app/demo.py issue: SELECT by a key, UPDATE ... WHERE, and the row count of an UPDATE.
use convoscore.Prelude.Maybe.{some_inj}
use convoscore.Prelude.{
  subst, ℕ, ◌≡◌, refl, Bool, true, false, ◌&&◌, Option, none, some, List, [], ◌∷◌, ◌++◌, arith,
  ◌==◌, if◌then◌else◌, option_map, count, All, Bool-cases, inl, inr,
}

module _ {ℓ} {A : Type ℓ} where
  -- UPDATE t SET f WHERE p
  unfoldable pub update_where : (A → Bool) → (A → A) → List A → List A
  update_where p f [] = []
  update_where p f (r ∷ rs) = (if p r then f r else r) ∷ update_where p f rs

  -- SELECT * FROM t WHERE p LIMIT 1
  unfoldable pub find : (A → Bool) → List A → Option A
  find p [] = none
  find p (r ∷ rs) = if p r then some r else find p rs

module _ {ℓ κ} {A : Type ℓ} (P : A → Type κ) where
  pub All-update_where :
      (p : A → Bool) (f : A → A) (rs : List A)
      → ((r : A) → p r ≡ true → P r → P (f r))
      → All P rs
      → All P (update_where p f rs)
  unfolding update_where
  All-update_where p f [] keep h = tt
  All-update_where p f (r ∷ rs) keep h = (
    elim (Bool-cases (p r)) [ inl hit ↦ rw hit (keep r hit h.0) | inr miss ↦ rw miss h.0 ],
    All-update_where p f rs keep h.1,
  )

  pub All-append_row : (rs : List A) (r : A) → All P rs → P r → All P (rs ++ r ∷ [])
  All-append_row [] r h p = (p, tt)
  All-append_row (x ∷ rs) r h p = (h.0, All-append_row rs r h.1 p)

-- A table whose rows have a numeric primary key.
module _ {ℓ} {A : Type ℓ} (key : A → ℕ) where
  -- The test `key = k AND g`.
  abbrev pub at_key : ℕ → (A → Bool) → A → Bool
  at_key k g r = (key r == k) && g r

  unfoldable pub lookup : ℕ → List A → Option A
  lookup k [] = none
  lookup k (r ∷ rs) = if key r == k then some r else lookup k rs

  -- No two rows have the same key.
  abbrev pub IsKeyed : List A → Type ℓ
  IsKeyed [] = Unit
  IsKeyed (r ∷ rs) = (lookup (key r) rs ≡ none) × IsKeyed rs

abbrev pub touch {ℓ} : {A : Type ℓ} → (A → Bool) → (A → A) → A → A
touch g f r = if g r then f r else r

abbrev pub hits {ℓ} : {A : Type ℓ} → (A → Bool) → Option A → ℕ
hits g none = 0
hits g (some r) = if g r then 1 else 0

module _ {ℓ} {A : Type ℓ} (key : A → ℕ) (f : A → A) (same : (r : A) → key (f r) ≡ key r) where
  -- What a keyed UPDATE leaves to be found under its own key and under any other.
  pub lookup-update_where :
      (k j : ℕ) (g : A → Bool) (rs : List A)
      → lookup key j (update_where (at_key key k g) f rs)
        ≡ (if j == k then option_map (touch g f) (lookup key j rs) else lookup key j rs)
  unfolding lookup update_where
  lookup-update_where k j g [] = ground arith
  lookup-update_where k j g (r ∷ rs) = ground (arith, lookup-update_where k j g rs, same r)

  -- What an UPDATE of every row leaves to be found.
  pub lookup-update_all :
      (j : ℕ) (rs : List A)
      → lookup key j (update_where (λ r. true) f rs) ≡ option_map f (lookup key j rs)
  unfolding lookup update_where
  lookup-update_all j [] = refl
  lookup-update_all j (r ∷ rs) = ground (arith, lookup-update_all j rs, same r)

  lookup-update_where-none :
      (k j : ℕ) (g : A → Bool) (rs : List A)
      → lookup key j rs ≡ none
      → lookup key j (update_where (at_key key k g) f rs) ≡ none
  lookup-update_where-none k j g rs h = ground (arith, lookup-update_where k j g rs)

  key-touch : (b : Bool) (r : A) → key (if b then f r else r) ≡ key r
  key-touch true r = same r
  key-touch false r = refl

  pub IsKeyed-update_where :
      (k : ℕ) (g : A → Bool) (rs : List A)
      → IsKeyed key rs
      → IsKeyed key (update_where (at_key key k g) f rs)
  unfolding update_where
  IsKeyed-update_where k g [] h = tt
  IsKeyed-update_where k g (r ∷ rs) h = (
    rw (key-touch (at_key key k g r) r) (lookup-update_where-none k (key r) g rs h.0),
    IsKeyed-update_where k g rs h.1,
  )

module _ {ℓ} {A : Type ℓ} (key : A → ℕ) where
  count-at_key-none :
      (k : ℕ) (g : A → Bool) (rs : List A) → lookup key k rs ≡ none → count (at_key key k g) rs ≡ 0
  unfolding lookup
  count-at_key-none k g [] h = refl
  count-at_key-none k g (r ∷ rs) h = ground (arith, count-at_key-none k g rs)

  -- Under a primary key the row count of a keyed UPDATE is 0 or 1, and tells whether the row that
  -- SELECT finds passes the guard.
  pub count-at_key :
      (k : ℕ) (g : A → Bool) (rs : List A)
      → IsKeyed key rs
      → count (at_key key k g) rs ≡ hits g (lookup key k rs)
  unfolding lookup
  count-at_key k g [] h = refl
  count-at_key k g (r ∷ rs) h = ground (arith, count-at_key k g rs h.1, count-at_key-none k g rs)

  -- A row that is added at the end is found under its key unless an older one was.
  pub lookup-append_row :
      (j : ℕ) (r : A) (rs : List A)
      → lookup key j rs ≡ none
      → lookup key j (rs ++ r ∷ []) ≡ (if key r == j then some r else none)
  unfolding lookup
  lookup-append_row j r [] h = refl
  lookup-append_row j r (x ∷ rs) h = ground (arith, lookup-append_row j r rs)

  pub lookup-append_some :
      (j : ℕ) (r x : A) (rs : List A)
      → lookup key j rs ≡ some x
      → lookup key j (rs ++ r ∷ []) ≡ some x
  unfolding lookup
  lookup-append_some j r x [] h = cc
  lookup-append_some j r x (y ∷ rs) h = ground (arith, lookup-append_some j r x rs)

  pub IsKeyed-append_row :
      (r : A) (rs : List A)
      → IsKeyed key rs
      → lookup key (key r) rs ≡ none
      → IsKeyed key (rs ++ r ∷ [])
  unfolding lookup
  IsKeyed-append_row r [] h e = (refl, tt)
  IsKeyed-append_row r (x ∷ rs) h e =
      ground (arith, IsKeyed-append_row r rs h.1, lookup-append_row (key x) r rs h.0)

  -- What is found after an insertion, for every key.
  pub lookup-append :
      (j : ℕ) (r : A) (rs : List A)
      → lookup key j (rs ++ r ∷ [])
        ≡ elim (lookup key j rs) [ some x ↦ some x | none ↦ if key r == j then some r else none ]
  unfolding lookup
  lookup-append j r [] = refl
  lookup-append j r (x ∷ rs) = ground (arith, lookup-append j r rs)

pub All-lookup {ℓ κ} :
    {A : Type ℓ} (P : A → Type κ) (key : A → ℕ) (k : ℕ) (rs : List A) (r : A)
    → All P rs
    → lookup key k rs ≡ some r
    → P r
unfolding lookup
All-lookup P key k [] r h e = cc
All-lookup P key k (x ∷ rs) r h e = elim (Bool-cases (key x == k)) [
  | inl hit ↦ subst P (some_inj (rw hit at e)) h.0
  | inr miss ↦ All-lookup P key k rs r h.1 (rw miss at e)
]
