-- ===== src/System/Actions.antt =====
-- What a block of actions reaches, from what its parts reach.
use convoscore.Prelude.{ℕ, Bool, true, false, ◌≡◌, sym, subst, ap, ◌∙◌, inl, inr}
use convoscore.Models.{Uuid, Time, Db}
use convoscore.Text.{Text}
use convoscore.Runtime.{
  World, Env, Result, ok, raise, Raised, M, ◌>>=◌, ◌>>◌, pure, transaction, transaction-cases, seen,
}
use convoscore.Pipeline.{Op, apply}
use convoscore.Queue.{delete, change_visibility, publish}
use convoscore.Queue.Laws.{delete-SameState, change_visibility-SameState, publish-SameState}
use convoscore.System.{transacts, Reach, here, next, Reach-trans, Others}

module _ {ℓ} (P : Op → Type ℓ) where
  -- The action leaves a database that can be reached from the one it finds, however it ends.
  abbrev pub Keeps : {A : Type 0} → M A → Type ℓ
  Keeps m = (w : World) → Reach P w.db (m w).1.db

  pub Reach-same : {a b c : Db} → Reach P a b → c ≡ b → Reach P a c
  Reach-same {a} {b} {c} r e = subst (λ d. Reach P a d) (sym e) r

  pub Keeps-same : {A : Type 0} (m : M A) → ((w : World) → (m w).1.db ≡ w.db) → Keeps m
  Keeps-same m same w = Reach-same here (same w)

  -- What follows both ends of a call.
  pub Reach-result :
      {A B : Type 0} (d : Db) (p : Result A × World) (f : A → World → B × World)
      (g : Raised → World → B × World)
      → Reach P d p.1.db
      → ((a : A) (w : World) → Reach P w.db (f a w).1.db)
      → ((e : Raised) (w : World) → Reach P w.db (g e w).1.db)
      → let q : B × World = elim p.0 [ ok a ↦ f a p.1 | raise e ↦ g e p.1 ] in Reach P d q.1.db
  Reach-result d (ok a, w) f g r h k = Reach-trans r (h a w)
  Reach-result d (raise e, w) f g r h k = Reach-trans r (k e w)

  pub Reach-if :
      {A : Type 0} (b : Bool) (d : Db) (p q : Result A × World)
      → Reach P d p.1.db
      → Reach P d q.1.db
      → let r : Result A × World = elim b [ true ↦ p | false ↦ q ] in Reach P d r.1.db
  Reach-if true d p q r s = r
  Reach-if false d p q r s = s

  pub Keeps-bind :
      {A B : Type 0} (m : M A) (f : A → M B) → Keeps m → ((a : A) → Keeps (f a)) → Keeps (m >>= f)
  Keeps-bind m f h k w = Reach-result w.db (m w) f (λ e w'. (raise e, w')) (h w) k (λ e w'. here)

  pub Keeps-then : {A B : Type 0} (m : M A) (k : M B) → Keeps m → Keeps k → Keeps (m >> k)
  Keeps-then m k h l = Keeps-bind m (λ _. k) h (λ _. l)

  pub Keeps-pure : {A : Type 0} (a : A) → Keeps (pure a)
  Keeps-pure a w = here

  pub Keeps-transaction :
      {A : Type 0} (env : Env) (body : Time → Db → Result A × Db)
      → Others P env
      → ((now : Time) (db : Db) (a : A) (db' : Db) → body now db ≡ (ok a, db') → Reach P db db')
      → Keeps (transaction env body)
  Keeps-transaction env body others h w =
      let before : Reach P w.db (seen env w) = others w.transactions w.db in
      elim (transaction-cases env body w) [
        | inl (a, db', e, t) ↦
            subst (λ (q : Result _ × World). Reach P w.db q.1.db) (sym t)
              (Reach-trans before (h (env.now w.transactions) (seen env w) a db' e))
        | inr (e, _, same) ↦ Reach-same before same
      ]

  pub Keeps-delete : (env : Env) (receipt : Text) → Keeps (delete env receipt)
  Keeps-delete env receipt =
      Keeps-same (delete env receipt) (λ w. (delete-SameState env w receipt).same_db)

  pub Keeps-change_visibility :
      (env : Env) (receipt : Text) (n : ℕ) → Keeps (change_visibility env receipt n)
  Keeps-change_visibility env receipt n =
      Keeps-same (change_visibility env receipt n)
        (λ w. (change_visibility-SameState env w receipt n).same_db)

  pub Keeps-publish : (env : Env) (id : Uuid) → Keeps (publish env id)
  Keeps-publish env id = Keeps-same (publish env id) (λ w. (publish-SameState env w id).same_db)

  pub one : {db db' : Db} (now : Time) (op : Op) → P op → db' ≡ apply now op db → Reach P db db'
  one now op p e = next here (transacts now op p (ap (λ (d : Db). d.conversations) e))

  -- A transaction of one operation, whose result is not of interest.
  pub Keeps-one :
      {A : Type 0} (env : Env)
      → Others P env
      → (body : Time → Db → Result A × Db) (op : Op) → P op
      → ((now : Time) (db : Db) → (body now db).1 ≡ apply now op db)
      → Keeps (transaction env body)
  Keeps-one {A} env others body op p same =
      Keeps-transaction env body others
        (λ now db a db' e. one now op p (sym (ap (λ (q : Result A × Db). q.1) e) ∙ same now db))
