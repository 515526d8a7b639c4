-- ===== src/Queue/Laws.antt =====
-- What the calls of the queue change.
use convoscore.Prelude.{ℕ, ◌∷◌, ◌≡◌, arith, ◌⊎◌}
use convoscore.Text.{Text}
use convoscore.Models.{Uuid}
use convoscore.Runtime.{
  Request, delete_message, change_message_visibility, send_message, World, Env, Result, ok, raise,
  Raised, queue_unavailable, publish_error,
}
use convoscore.Queue.{queue_url, request, call_client, delete, change_visibility, publish}

-- No transaction and no provider call has taken place.
pub record SameState (w w' : World) : Type 0 where
  pub same_db : w'.db ≡ w.db
  pub same_transactions : w'.transactions ≡ w.transactions
  pub same_scored : w'.scored ≡ w.scored

-- The request was carried out, or the call raised, and the request was carried out or not.
abbrev pub Sends : Request → Raised → World → Result (Unit {0}) × World → Type 0
Sends q e w r =
    ((r.0 ≡ ok tt) × (r.1.sent ≡ q ∷ w.sent))
    ⊎ ((r.0 ≡ raise e) × ((r.1.sent ≡ w.sent) ⊎ (r.1.sent ≡ q ∷ w.sent)))

module _ (env : Env) (w : World) where
  call_client-SameState : (q : Request) → SameState w (call_client env q w).1
  unfolding call_client queue_url request
  call_client-SameState q = ground arith

  call_client-Sends : (q : Request) → Sends q queue_unavailable w (call_client env q w)
  unfolding call_client queue_url request
  call_client-Sends q = ground arith

  pub delete-SameState : (receipt : Text) → SameState w (delete env receipt w).1
  unfolding delete
  delete-SameState receipt = ground (arith, call_client-SameState (delete_message receipt))

  pub delete-Sends :
      (receipt : Text) → Sends (delete_message receipt) queue_unavailable w (delete env receipt w)
  unfolding delete
  delete-Sends receipt = ground (arith, call_client-Sends (delete_message receipt))

  pub change_visibility-SameState :
      (receipt : Text) (n : ℕ) → SameState w (change_visibility env receipt n w).1
  unfolding change_visibility
  change_visibility-SameState receipt n =
      ground (arith, call_client-SameState (change_message_visibility receipt n))

  -- A change of visibility never raises; it was sent or it was not.
  pub change_visibility-ok :
      (receipt : Text) (n : ℕ)
      → ((change_visibility env receipt n w).0 ≡ ok tt)
        × (((change_visibility env receipt n w).1.sent
              ≡ change_message_visibility receipt n ∷ w.sent)
            ⊎ ((change_visibility env receipt n w).1.sent ≡ w.sent))
  unfolding change_visibility
  change_visibility-ok receipt n =
      ground (arith, call_client-Sends (change_message_visibility receipt n))

  pub publish-SameState : (id : Uuid) → SameState w (publish env id w).1
  unfolding publish
  publish-SameState id = ground (arith, call_client-SameState (send_message id))

  pub publish-Sends : (id : Uuid) → Sends (send_message id) publish_error w (publish env id w)
  unfolding publish
  publish-Sends id = ground (arith, call_client-Sends (send_message id))
