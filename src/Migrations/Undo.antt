-- ===== src/Migrations/Undo.antt =====
-- Every downgrade undoes its upgrade.
use convoscore.Prelude.{
  ◌≡◌, refl, sym, ap, ◌∙◌, subst, Bool, true, false, not, Option, none, some, List, [], ◌∷◌, ◌++◌,
  all, any, filter, arith, Bool-cases, inl, inr, All,
}
use convoscore.Prelude.Maybe.{some_inj, ◌>>=◌, >>=-eq-some}
use convoscore.Text.{Text, ◌is◌, is_iff}
use convoscore.Migrations.{
  SqlTable, Index, ForeignKey, Schema, SchemaOp, create_table, create_index, drop_index, drop_table,
  table_is, index_is, on_table, refers_to, has_table, is_linked, is_taken, apply_op, apply_ops,
  Revision,
}
use convoscore.Migrations.Versions.{revision_0001, revision_0002, revision_0003}

filter_none {ℓ} :
    {A : Type ℓ} (p : A → Bool) (xs : List A) → any p xs ≡ false → filter (λ x. not (p x)) xs ≡ xs
filter_none p [] h = refl
filter_none p (x ∷ xs) h = ground (arith, filter_none p xs)

is_self : (t : Text) → (t is t) ≡ true
is_self t = (is_iff t t).1 refl

-- The indexes and the foreign keys name tables that are there.
pub record IsSound (s : Schema) : Type 0 where
  pub indexed : all (λ (i : Index). has_table i.index_table s.tables) s.indexes ≡ true
  pub linked : all (is_linked s.tables) s.tables ≡ true

module _ (name : Text) (ts : List SqlTable) (absent : has_table name ts ≡ false) where
  other_name : (n : Text) → has_table n ts ≡ true → (name is n) ≡ false
  other_name n h = elim (Bool-cases (name is n)) [
    | inl same ↦ absurd (
        ground (arith, absent, subst (λ n. has_table n ts ≡ true) (sym ((is_iff name n).0 same)) h))
    | inr other ↦ other
  ]

  unindexed :
      (ix : List Index)
      → all (λ (i : Index). has_table i.index_table ts) ix ≡ true
      → any (on_table name) ix ≡ false
  unindexed [] h = refl
  unindexed (i ∷ ix) h = ground (arith, other_name i.index_table, unindexed ix)

  unlinked :
      (ks : List ForeignKey)
      → all (λ (k : ForeignKey). has_table k.foreign_table ts) ks ≡ true
      → any (λ (k : ForeignKey). name is k.foreign_table) ks ≡ false
  unlinked [] h = refl
  unlinked (k ∷ ks) h = ground (arith, other_name k.foreign_table, unlinked ks)

  unreferred : (us : List SqlTable) → all (is_linked ts) us ≡ true → any (refers_to name) us ≡ false
  unreferred [] h = refl
  unreferred (u ∷ us) h = ground (arith, unlinked u.foreign_keys, unreferred us)

-- A longer list of tables has no fewer names.
module _ (t : SqlTable) (ts : List SqlTable) where
  all_named {ℓ} :
      {A : Type ℓ} (f : A → Text) (xs : List A)
      → all (λ x. has_table (f x) ts) xs ≡ true
      → all (λ x. has_table (f x) (t ∷ ts)) xs ≡ true
  all_named f [] h = refl
  all_named f (x ∷ xs) h = ground (arith, all_named f xs)

  all_linked :
      (us : List SqlTable) → all (is_linked ts) us ≡ true → all (is_linked (t ∷ ts)) us ≡ true
  all_linked [] h = refl
  all_linked (u ∷ us) h =
      ground (arith, all_named (λ (k : ForeignKey). k.foreign_table) u.foreign_keys, all_linked us)

undo : SchemaOp → SchemaOp
undo (create_table t) = drop_table t.table_name
undo (create_index i) = drop_index i.index_name
undo op = op

abbrev Creates : SchemaOp → Type 0
Creates (create_table _) = Unit
Creates (create_index _) = Unit
Creates _ = ⊥

undo_table :
    (t : SqlTable) (s s' : Schema)
    → IsSound s
    → apply_op (create_table t) s ≡ some s'
    → (apply_op (drop_table t.table_name) s' ≡ some s) × IsSound s'
unfolding apply_op is_taken
undo_table t s s' sound e =
    let name = t.table_name in
    let self : (name is name) ≡ true = is_self name in
    let absent : has_table name s.tables ≡ false = ground (arith, e) in
    let linked : is_linked (t ∷ s.tables) t ≡ true = ground (arith, e) in
    let made : s' ≡ record s { tables = t ∷ s.tables } = ground (arith, e) in
    let kept : filter (λ u. not (table_is name u)) s.tables ≡ s.tables =
      filter_none (table_is name) s.tables absent in
    let free : any (refers_to name) s.tables ≡ false =
      unreferred name s.tables absent s.tables sound.linked in
    let bare : any (on_table name) s.indexes ≡ false =
      unindexed name s.tables absent s.indexes sound.indexed in
    let kept_indexes : filter (λ i. not (on_table name i)) s.indexes ≡ s.indexes =
      filter_none (on_table name) s.indexes bare in
    (
      rw made (rw self (rw (kept, free, kept_indexes) refl)),
      rw made (record {
        indexed = all_named t s.tables (λ (i : Index). i.index_table) s.indexes sound.indexed;
        linked = rw linked (all_linked t s.tables s.tables sound.linked);
      }),
    )

undo_index :
    (i : Index) (s s' : Schema)
    → IsSound s
    → apply_op (create_index i) s ≡ some s'
    → (apply_op (drop_index i.index_name) s' ≡ some s) × IsSound s'
unfolding apply_op is_taken
undo_index i s s' sound e =
    let name = i.index_name in
    let self : (name is name) ≡ true = is_self name in
    let absent : any (index_is name) s.indexes ≡ false = ground (arith, e) in
    let named : has_table i.index_table s.tables ≡ true = ground (arith, e) in
    let made : s' ≡ record s { indexes = i ∷ s.indexes } = ground (arith, e) in
    let kept : filter (λ j. not (index_is name j)) s.indexes ≡ s.indexes =
      filter_none (index_is name) s.indexes absent in
    (
      rw made (rw self (rw kept refl)),
      rw made (record { indexed = rw (named, sound.indexed) refl; linked = sound.linked }),
    )

undo_op :
    (op : SchemaOp) (s s' : Schema)
    → Creates op
    → IsSound s
    → apply_op op s ≡ some s'
    → (apply_op (undo op) s' ≡ some s) × IsSound s'
unfolding undo
undo_op (create_table t) s s' c sound e = undo_table t s s' sound e
undo_op (create_index i) s s' c sound e = undo_index i s s' sound e
undo_op (drop_index _) s s' c sound e = elim c [ ]
undo_op (drop_table _) s s' c sound e = elim c [ ]

undo_all : List SchemaOp → List SchemaOp
undo_all [] = []
undo_all (op ∷ rest) = undo_all rest ++ undo op ∷ []

>>=-some {ℓ} : {A : Type ℓ} (o : Option A) → (o >>= some) ≡ o
>>=-some none = refl
>>=-some (some a) = refl

apply_ops-append :
    (xs : List SchemaOp) (op : SchemaOp) (s s1 : Schema)
    → apply_ops xs s ≡ some s1
    → apply_ops (xs ++ op ∷ []) s ≡ apply_op op s1
unfolding apply_ops
apply_ops-append [] op s s1 e =
    subst (λ x. apply_ops (op ∷ []) x ≡ apply_op op s1) (sym (some_inj e))
      (>>=-some (apply_op op s1))
apply_ops-append (x ∷ xs) op s s1 e =
    let (s2, made, after) = >>=-eq-some (apply_op x s) (apply_ops xs) e in
    ap (λ o. o >>= apply_ops (xs ++ op ∷ [])) made ∙ apply_ops-append xs op s2 s1 after

undo-apply_ops :
    (ops : List SchemaOp) (s s' : Schema)
    → All Creates ops
    → IsSound s
    → apply_ops ops s ≡ some s'
    → apply_ops (undo_all ops) s' ≡ some s
unfolding apply_ops undo_all
undo-apply_ops [] s s' c sound e = sym e
undo-apply_ops (op ∷ rest) s s' c sound e =
    let (s1, made, after) = >>=-eq-some (apply_op op s) (apply_ops rest) e in
    let (undone, sound1) = undo_op op s s1 c.0 sound made in
    apply_ops-append (undo_all rest) (undo op) s' s1 (undo-apply_ops rest s1 s' c.1 sound1 after)
    ∙ undone

pub data Version : Type 0 where
  v0001 v0002 v0003 : Version

abbrev pub revision_of : Version → Revision
revision_of v0001 = revision_0001
revision_of v0002 = revision_0002
revision_of v0003 = revision_0003

-- What an upgrade to a version has done to a schema, the downgrade from it undoes exactly, whatever
-- else the schema holds.
-- The indexes and foreign keys of the schema name tables that it has.
pub downgrade-upgrade :
    (v : Version) (s s' : Schema)
    → IsSound s
    → apply_ops (revision_of v).upgrade s ≡ some s'
    → apply_ops (revision_of v).downgrade s' ≡ some s
unfolding undo undo_all
downgrade-upgrade v0001 s s' sound e =
    undo-apply_ops revision_0001.upgrade s s' (tt, (tt, (tt, (tt, (tt, tt))))) sound e
downgrade-upgrade v0002 s s' sound e =
    undo-apply_ops revision_0002.upgrade s s' (tt, (tt, tt)) sound e
downgrade-upgrade v0003 s s' sound e = undo-apply_ops revision_0003.upgrade s s' (tt, tt) sound e
