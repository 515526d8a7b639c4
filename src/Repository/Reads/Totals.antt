-- ===== src/Repository/Reads/Totals.antt =====
-- GROUP BY counts: each group has the number of its rows, and together they have all rows.
use convoscore.Prelude.{
  ℕ, suc, true, false, List, [], ◌∷◌, ◌≡◌, refl, sym, ap, ◌∙◌, arith, if◌then◌else◌, length, count,
  sum_of, Bool-cases, inl, inr,
}
use convoscore.Text.{Text, ◌is◌, is_iff}
use convoscore.Repository.Reads.{Groups, add_to_group, group_by, group_count}

is_same : (a b : Text) → a is b ≡ true → a ≡ b
is_same a b h = (is_iff a b).0 h

is_self : (a : Text) → a is a ≡ true
is_self a = (is_iff a a).1 refl

is_apart : (a b : Text) → a is b ≡ false → b is a ≡ false
is_apart a b h = elim (Bool-cases (b is a)) [
  | inl same ↦ absurd (ground (arith, h, ap (λ x. x is b) (sym (is_same b a same)), is_self b))
  | inr apart ↦ apart
]

group_count-add_to_group :
    (k j : Text) (gs : Groups)
    → group_count k (add_to_group j gs)
      ≡ (if j is k then suc (group_count k gs) else group_count k gs)
unfolding group_count add_to_group
group_count-add_to_group k j [] = ground arith
group_count-add_to_group k j ((h, n) ∷ rest) = elim (Bool-cases (h is j)) [
  | inl same ↦
      let e : (h is k) ≡ (j is k) = ap (λ x. x is k) (is_same h j same) in ground (arith, same, e)
  | inr other ↦ elim (Bool-cases (h is k)) [
    | inl hit ↦
        let e : (j is k) ≡ (j is h) = ap (λ x. j is x) (sym (is_same h k hit)) in
        let not_same : (j is h) ≡ false = is_apart h j other in
        ground (arith, other, hit, e, not_same)
    | inr miss ↦ ground (arith, other, miss, group_count-add_to_group k j rest)
  ]
]

pub group_count-group_by :
    (k : Text) (ks : List Text) → group_count k (group_by ks) ≡ count (λ j. j is k) ks
unfolding group_by group_count
group_count-group_by k [] = refl
group_count-group_by k (j ∷ ks) =
    ground (arith, group_count-add_to_group k j (group_by ks), group_count-group_by k ks)

abbrev pub group_total : Groups → ℕ
group_total gs = sum_of (λ g. g.1) gs

group_total-add_to_group :
    (k : Text) (gs : Groups) → group_total (add_to_group k gs) ≡ suc (group_total gs)
unfolding add_to_group
group_total-add_to_group k [] = refl
group_total-add_to_group k ((j, n) ∷ rest) = ground (arith, group_total-add_to_group k rest)

pub group_total-group_by : (ks : List Text) → group_total (group_by ks) ≡ length ks
unfolding group_by
group_total-group_by [] = refl
group_total-group_by (k ∷ ks) =
    group_total-add_to_group k (group_by ks) ∙ ap suc (group_total-group_by ks)
