-- ===== src/Queue.antt =====
-- app/queue.py: messages, the wrapper of one SQS queue, and the publisher. `json.loads` on a text
-- and `uuid.UUID` are parameters.
pub mod Laws
use convoscore.Prelude.{
  ℕ, suc, Bool, true, false, Option, none, some, List, [], ◌∷◌, map, if◌then◌else◌, get_or_else,
}
use convoscore.Text.{Text, text}
use convoscore.Json.{Json, str, obj, Fields, end, get_field}
use convoscore.Models.{Uuid}
use convoscore.Runtime.{
  Request, delete_message, change_message_visibility, send_message, World, Env, Result, ok, raise,
  queue_unavailable, publish_error, M, ◌>>=◌, ◌>>◌, pure, raising,
}

pub record QueueMessage : Type 0 where
  pub message_id : Text
  pub receipt_handle : Text
  pub body : Fields
  pub receive_count : ℕ

pub record Parser : Type 0 where
  pub loads : Text → Option Json
  pub parse_uuid : Text → Option Uuid

-- `QueueMessage.job_id`.
unfoldable pub job_id : Parser → QueueMessage → Option Uuid
job_id p m = elim (get_field (text "job_id") m.body) [
  | some (str raw) ↦ p.parse_uuid raw
  | _ ↦ none
]

-- A message as SQS delivers it.
pub record RawMessage : Type 0 where
  pub raw_id : Option Text
  pub raw_receipt : Text
  pub raw_body : Text
  pub raw_count : Option ℕ

-- The loop body of `receive`: a body that is no JSON object becomes an empty one.
abbrev pub body_fields : Option Json → Fields
body_fields (some (obj fs)) = fs
body_fields _ = end

unfoldable pub read_message : Parser → RawMessage → QueueMessage
read_message p raw = record {
  message_id = get_or_else raw.raw_id [];
  receipt_handle = raw.raw_receipt;
  body = body_fields (p.loads raw.raw_body);
  receive_count = get_or_else raw.raw_count 1;
}

-- `queue_url`: resolved at first use and then cached.
unfoldable pub queue_url : Env → M Text
queue_url env w = elim w.queue_url [
  | some url ↦ (ok url, w)
  | none ↦ elim (env.resolve w.requests) [
    | none ↦ (raise queue_unavailable, record w { requests = suc w.requests })
    | some url ↦ (ok url, record w { requests = suc w.requests; queue_url = some url })
  ]
]

-- `forget_url`.
abbrev pub forget_url : World → World
forget_url w = record w { queue_url = none }

-- One request to SQS. A call that raises may have been carried out all the same.
unfoldable pub request : Env → Request → M (Unit {0})
request env r w =
    if env.sqs_fails w.requests
    then (
      raise queue_unavailable,
      record w {
        requests = suc w.requests;
        sent = if env.arrives w.requests then r ∷ w.sent else w.sent;
      },
    )
    else (ok tt, record w { requests = suc w.requests; sent = r ∷ w.sent })

-- `self._client.call(QueueUrl=self.queue_url(), ...)`.
unfoldable pub call_client : Env → Request → M (Unit {0})
call_client env r = do queue_url env; request env r

-- Every exception makes the wrapper forget the URL and raise its own.
unfoldable pub delete : Env → Text → M (Unit {0})
delete env receipt w =
    let (r, w') = call_client env (delete_message receipt) w in
    elim r [ ok _ ↦ (ok tt, w') | raise _ ↦ (raise queue_unavailable, forget_url w') ]

-- A failure is swallowed.
unfoldable pub change_visibility : Env → Text → ℕ → M (Unit {0})
change_visibility env receipt seconds w =
    let (r, w') = call_client env (change_message_visibility receipt seconds) w in (ok tt, w')

-- `SqsQueue.send`, which `SqsPublisher.publish` calls.
unfoldable pub publish : Env → Uuid → M (Unit {0})
publish env id w =
    let (r, w') = call_client env (send_message id) w in
    elim r [ ok _ ↦ (ok tt, w') | raise _ ↦ (raise publish_error, forget_url w') ]

-- What the response to `get_queue_attributes` says, and what becomes of it.
pub record Attributes : Type 0 where
  pub number_of_messages : Option ℕ
  pub number_not_visible : Option ℕ

pub record Depth : Type 0 where
  pub visible : ℕ
  pub in_flight : ℕ

-- `attributes`, with the answers of SQS by the number of the request.
unfoldable pub attributes : Env → (ℕ → Attributes) → M Depth
attributes env answer w =
    let (r, w') = queue_url env w in
    elim r [
      | raise _ ↦ (raise queue_unavailable, forget_url w')
      | ok _ ↦
          let w'' = record w' { requests = suc w'.requests } in
          let a = answer w'.requests in
          if env.sqs_fails w'.requests then (raise queue_unavailable, forget_url w'') else (
            ok (record {
              visible = get_or_else a.number_of_messages 0;
              in_flight = get_or_else a.number_not_visible 0;
            }),
            w'',
          )
    ]

-- `receive`: `inbox` is what SQS would deliver.
unfoldable pub receive : Env → Parser → List RawMessage → M (List QueueMessage)
receive env p inbox w =
    let (r, w') = queue_url env w in
    elim r [
      | raise _ ↦ (raise queue_unavailable, forget_url w')
      | ok _ ↦
          let w'' = record w' { requests = suc w'.requests } in
          if env.sqs_fails w'.requests
          then (raise queue_unavailable, forget_url w'')
          else (ok (map (read_message p) inbox), w'')
    ]
