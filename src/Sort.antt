-- ===== src/Sort.antt =====
-- ORDER BY as an insertion sort: the order of the rows is total, so the sorted list is the only one.
use mathlib.Core.List.{Perm}
use mathlib.Core.List.Perm
use convoscore.Prelude.{
  ℕ, zero, suc, ◌+◌, ◌*◌, ◌≤◌, Bool, true, false, List, [], ◌∷◌, ◌++◌, ◌≡◌, refl, arith, inl, inr,
  if◌then◌else◌, length, take, drop, All, Bool-cases, ap, sym, ◌∙◌,
}

module _ {ℓ} {A : Type ℓ} (before : A → A → Bool) where
  unfoldable pub insert_row : A → List A → List A
  insert_row x [] = x ∷ []
  insert_row x (y ∷ ys) = if before x y then x ∷ y ∷ ys else y ∷ insert_row x ys

  unfoldable pub order_by : List A → List A
  order_by [] = []
  order_by (x ∷ xs) = insert_row x (order_by xs)

  -- Every row comes before all that follow it.
  abbrev pub IsOrdered : List A → Type ℓ
  IsOrdered [] = Unit
  IsOrdered (x ∷ xs) = All (λ y. before x y ≡ true) xs × IsOrdered xs

  insert_row-Perm : (x : A) (xs : List A) → Perm (insert_row x xs) (x ∷ xs)
  unfolding insert_row
  insert_row-Perm x [] = Perm.rfl
  insert_row-Perm x (y ∷ ys) = elim (Bool-cases (before x y)) [
    | inl first ↦ rw (first, insert_row) Perm.rfl
    | inr later ↦
        rw (later, insert_row) (Perm.trans (Perm.cons y (insert_row-Perm x ys)) (Perm.swap x y ys))
  ]

  -- Nothing is lost and nothing added.
  pub order_by-Perm : (xs : List A) → Perm (order_by xs) xs
  unfolding order_by
  order_by-Perm [] = Perm.rfl
  order_by-Perm (x ∷ xs) =
      Perm.trans (insert_row-Perm x (order_by xs)) (Perm.cons x (order_by-Perm xs))

  length-insert_row : (x : A) (ys : List A) → length (insert_row x ys) ≡ suc (length ys)
  unfolding insert_row
  length-insert_row x [] = refl
  length-insert_row x (y ∷ ys) = ground (arith, length-insert_row x ys)

  pub length-order_by : (xs : List A) → length (order_by xs) ≡ length xs
  unfolding order_by
  length-order_by [] = refl
  length-order_by (x ∷ xs) = omega (arith, length-insert_row x (order_by xs), length-order_by xs)

  pub All-insert_row {κ} :
      (P : A → Type κ) (x : A) (xs : List A) → P x → All P xs → All P (insert_row x xs)
  unfolding insert_row
  All-insert_row P x [] p h = (p, tt)
  All-insert_row P x (y ∷ ys) p h = elim (Bool-cases (before x y)) [
    | inl first ↦ rw first (p, h)
    | inr later ↦ rw later (h.0, All-insert_row P x ys p h.1)
  ]

  pub All-order_by {κ} : (P : A → Type κ) (xs : List A) → All P xs → All P (order_by xs)
  unfolding order_by
  All-order_by P [] h = tt
  All-order_by P (x ∷ xs) h = All-insert_row P x (order_by xs) h.0 (All-order_by P xs h.1)

  module _ (total : (a b : A) → before a b ≡ false → before b a ≡ true)
      (trans : (a b c : A) → before a b ≡ true → before b c ≡ true → before a c ≡ true) where
    All-before :
        (x y : A) (ys : List A)
        → before x y ≡ true
        → All (λ z. before y z ≡ true) ys
        → All (λ z. before x z ≡ true) ys
    All-before x y [] h b = tt
    All-before x y (z ∷ zs) h b = (trans x y z h b.0, All-before x y zs h b.1)

    insert_row-IsOrdered : (x : A) (xs : List A) → IsOrdered xs → IsOrdered (insert_row x xs)
    unfolding insert_row
    insert_row-IsOrdered x [] h = (tt, tt)
    insert_row-IsOrdered x (y ∷ ys) h = elim (Bool-cases (before x y)) [
      | inl first ↦ rw first ((first, All-before x y ys first h.0), h)
      | inr later ↦ rw later (
        All-insert_row (λ z. before y z ≡ true) x ys (total x y later) h.0,
        insert_row-IsOrdered x ys h.1,
      )
    ]

    pub order_by-IsOrdered : (xs : List A) → IsOrdered (order_by xs)
    unfolding order_by
    order_by-IsOrdered [] = tt
    order_by-IsOrdered (x ∷ xs) = insert_row-IsOrdered x (order_by xs) (order_by-IsOrdered xs)

-- OFFSET and LIMIT.
module _ {ℓ} {A : Type ℓ} where
  unfoldable pub page_of : ℕ → ℕ → List A → List A
  page_of limit offset xs = take limit (drop offset xs)

  -- The first `k` pages, one after the other.
  unfoldable pub pages : ℕ → ℕ → ℕ → List A → List A
  pages zero limit offset xs = []
  pages (suc k) limit offset xs = page_of limit offset xs ++ pages k limit (offset + limit) xs

  take-drop_rest : (n : ℕ) (xs : List A) → take n xs ++ drop n xs ≡ xs
  take-drop_rest zero xs = refl
  take-drop_rest (suc n) [] = refl
  take-drop_rest (suc n) (x ∷ xs) = ap (λ l. x ∷ l) (take-drop_rest n xs)

  drop-nil : (n : ℕ) → drop {A = A} n [] ≡ []
  drop-nil zero = refl
  drop-nil (suc n) = refl

  drop-drop : (m n : ℕ) (xs : List A) → drop n (drop m xs) ≡ drop (m + n) xs
  drop-drop zero n xs = let e : n ≡ 0 + n = omega arith in ap (λ k. drop k xs) e
  drop-drop (suc m) n [] = drop-nil n ∙ sym (drop-nil (suc m + n))
  drop-drop (suc m) n (x ∷ xs) =
      let e : suc (m + n) ≡ suc m + n = omega arith in
      drop-drop m n xs ∙ ap (λ k. drop k (x ∷ xs)) e

  drop_all : (n : ℕ) (xs : List A) → length xs ≤ n → drop n xs ≡ []
  drop_all zero [] h = refl
  drop_all zero (x ∷ xs) h = absurd (omega arith)
  drop_all (suc n) [] h = refl
  drop_all (suc n) (x ∷ xs) h = drop_all n xs (omega arith)

  pages-drop :
      (k limit offset : ℕ) (xs : List A)
      → length xs ≤ offset + k * limit
      → pages k limit offset xs ≡ drop offset xs
  unfolding pages page_of
  pages-drop zero limit offset xs h = sym (drop_all offset xs (omega arith))
  pages-drop (suc k) limit offset xs h =
      ap (λ l. take limit (drop offset xs) ++ l)
        (pages-drop k limit (offset + limit) xs (omega arith) ∙ sym (drop-drop offset limit xs))
      ∙ take-drop_rest limit (drop offset xs)

  -- Enough pages hold every row once, in order: no row is on two pages and none between two.
  pub pages_complete : (k limit : ℕ) (xs : List A) → length xs ≤ k * limit → pages k limit 0 xs ≡ xs
  pages_complete k limit xs h = pages-drop k limit 0 xs (omega arith)
