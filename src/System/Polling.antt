-- ===== src/System/Polling.antt =====
-- The ingestor changes the jobs only by creating them and by marking those that it has created.
use convoscore.Prelude.{
  ℕ, suc, Bool, true, false, length, Option, none, some, List, [], ◌∷◌, sym, ap,
}
use convoscore.Models.{Time, Db}
use convoscore.Storage.{StoredObject, Item, list_pages}
use convoscore.Repository.Ingest.{object_already_seen}
use convoscore.Runtime.{World, Result, ok, raise, pure, transaction}
use convoscore.Pipeline.{Op}
use convoscore.Ingestor.{
  Source, PollResult, no_result, add, Parsed, accepted, refused, parse, record_invalid,
  handle_parsed, handle_bytes, handle_unseen, handle, poll_from, poll_once, run_forever,
}
use convoscore.System.{elsewhere, Reach, here, next, Others}
use convoscore.System.Actions.{
  Keeps, Reach-if, Reach-result, Keeps-bind, Keeps-then, Keeps-pure, Keeps-transaction,
}
use convoscore.System.Sources.{SourceOps}
use convoscore.System.Ingestion.{record_invalid-Keeps, create-Keeps}

module _ {ℓ} (P : Op → Type ℓ) (src : Source) (others : Others P src.env)
    (ops : SourceOps P src.digest src.uuid4) where
  handle_parsed-Keeps :
      (stored : StoredObject) (raw : List ℕ) (p : Parsed) → Keeps P (handle_parsed src stored raw p)
  unfolding handle_parsed
  handle_parsed-Keeps stored raw (accepted c) = create-Keeps P src others ops stored c
  handle_parsed-Keeps stored raw (refused p) =
      Keeps-then P (record_invalid src stored (src.problem_text raw p))
        (pure (record no_result { invalid = 1 }))
        (record_invalid-Keeps P src others ops stored (src.problem_text raw p))
        (Keeps-pure P (record no_result { invalid = 1 }))

  handle_bytes-Keeps :
      (stored : StoredObject) (o : Option (List ℕ)) → Keeps P (handle_bytes src stored o)
  unfolding handle_bytes
  handle_bytes-Keeps stored none = Keeps-pure P (record no_result { failed = 1 })
  handle_bytes-Keeps stored (some raw) = handle_parsed-Keeps stored raw (parse src raw)

  handle_unseen-Keeps :
      (stored : StoredObject) (known : Bool) → Keeps P (handle_unseen src stored known)
  unfolding handle_unseen
  handle_unseen-Keeps stored true = Keeps-pure P (record no_result { skipped_duplicate = 1 })
  handle_unseen-Keeps stored false = handle_bytes-Keeps stored (src.read_object stored.key)

  handle-Keeps : (stored : StoredObject) → Keeps P (handle src stored)
  unfolding handle
  handle-Keeps stored =
      let look : Time → Db → Result Bool × Db =
        λ now db. (ok (object_already_seen src.bucket stored.key stored.etag db), db) in
      Keeps-bind P (transaction src.env look) (handle_unseen src stored)
        (Keeps-transaction P src.env look others (λ now db a db' e.
          next here (elsewhere (sym (ap (λ (q : Result Bool × Db). q.1.conversations) e)))))
        (handle_unseen-Keeps stored)

  poll_from-Keeps :
      (result : PollResult) (objects : List StoredObject) → Keeps P (poll_from src result objects)
  unfolding poll_from
  poll_from-Keeps result [] w = here
  poll_from-Keeps result (stored ∷ rest) w =
      let p = handle src stored w in
      let next_ones : Result PollResult × World = elim p.0 [
        | ok r ↦ poll_from src (add result r) rest p.1
        | raise e ↦ (raise e, p.1)
      ] in
      Reach-if P (src.stopping w.transactions) w.db (ok result, w) next_ones here
        (Reach-result P w.db p (λ r w'. poll_from src (add result r) rest w')
          (λ e w'. (raise e, w')) (handle-Keeps stored w) (λ r. poll_from-Keeps (add result r) rest)
          (λ e w'. here))

  pub poll_once-Keeps : (pages : Option (List (List Item))) → Keeps P (poll_once src pages)
  unfolding poll_once
  poll_once-Keeps none w = here
  poll_once-Keeps (some pages) w =
      let objects = list_pages pages in
      poll_from-Keeps (record no_result { discovered = length objects }) objects w

  -- Whatever the listings of its passes hold, and whatever fails.
  pub run_forever-Keeps :
      (passes : List (Option (List (List Item)))) (n : ℕ) (last : Option ℕ) (w : World)
      → Reach P w.db (run_forever src passes n last w).1.db
  unfolding run_forever
  run_forever-Keeps [] n last w = here
  run_forever-Keeps (pages ∷ rest) n last w =
      Reach-result P w.db (poll_once src pages w) (λ r w'. run_forever src rest (suc n) (some n) w')
        (λ e w'. run_forever src rest (suc n) last w') (poll_once-Keeps pages w)
        (λ r. run_forever-Keeps rest (suc n) (some n)) (λ e. run_forever-Keeps rest (suc n) last)
