-- ===== src/Logging.antt =====
-- app/logging.py: the fields of a line of the log. `json.dumps` and the handlers are the library's.
use convoscore.Prelude.{
  Bool, true, false, not, ◌&&◌, ◌||◌, Option, none, some, List, [], ◌∷◌, ◌≡◌, refl, ap, ◌∙◌, arith,
  is_some, if◌then◌else◌, Bool-cases, inl, inr,
}
use convoscore.Text.{Text, text, ◌is◌, is_iff, starts_with}
use convoscore.Json.{Json, str, null}

-- A Python dictionary, in the order of insertion.
abbrev pub Payload : Type 0
Payload = List (Text × Json)

unfoldable pub get : Text → Payload → Option Json
get k [] = none
get k ((j, v) ∷ rest) = if j is k then some v else get k rest

-- `payload[key] = value`.
unfoldable pub put : Text → Json → Payload → Payload
put k v [] = (k, v) ∷ []
put k v ((j, u) ∷ rest) = if j is k then (j, v) ∷ rest else (j, u) ∷ put k v rest

abbrev pub reserved : List Text
reserved =
    text "args"
    ∷ text "asctime"
    ∷ text "created"
    ∷ text "exc_info"
    ∷ text "exc_text"
    ∷ text "filename"
    ∷ text "funcName"
    ∷ text "levelname"
    ∷ text "levelno"
    ∷ text "lineno"
    ∷ text "module"
    ∷ text "msecs"
    ∷ text "message"
    ∷ text "msg"
    ∷ text "name"
    ∷ text "pathname"
    ∷ text "process"
    ∷ text "processName"
    ∷ text "relativeCreated"
    ∷ text "stack_info"
    ∷ text "thread"
    ∷ text "threadName"
    ∷ text "taskName"
    ∷ []

unfoldable pub is_one_of : Text → List Text → Bool
is_one_of k [] = false
is_one_of k (j ∷ js) = (j is k) || is_one_of k js

-- A LogRecord: what the formatter reads of it, its `__dict__`, and the exception with its class's name.
pub record LogRecord : Type 0 where
  pub ts : Text
  pub level : Text
  pub logger : Text
  pub event : Text
  pub attributes : List (Text × Json)
  pub exc_info : Option (Option Text × Text)

abbrev pub core : Text → LogRecord → Payload
core component r =
    (text "ts", str r.ts)
    ∷ (text "level", str r.level)
    ∷ (text "component", str component)
    ∷ (text "logger", str r.logger)
    ∷ (text "event", str r.event)
    ∷ []

abbrev pub is_extra : Text → Payload → Bool
is_extra k payload =
    not (is_one_of k reserved) && (not (is_some (get k payload)) && not (starts_with (text "_") k))

unfoldable pub add_extras : List (Text × Json) → Payload → Payload
add_extras [] payload = payload
add_extras ((k, v) ∷ rest) payload =
    add_extras rest (if is_extra k payload then put k v payload else payload)

abbrev pub class_name : Option Text → Json
class_name none = null
class_name (some name) = str name

abbrev pub add_exception : Option (Option Text × Text) → Payload → Payload
add_exception none payload = payload
add_exception (some (name, traceback)) payload =
    put (text "traceback") (str traceback) (put (text "error_class") (class_name name) payload)

-- `JsonFormatter.format`, before `json.dumps`.
unfoldable pub format : Text → LogRecord → Payload
format component r = add_exception r.exc_info (add_extras r.attributes (core component r))

get-put-other :
    (k j : Text) (v : Json) (payload : Payload)
    → (j is k) ≡ false
    → get k (put j v payload) ≡ get k payload
unfolding get put
get-put-other k j v [] h = rw h refl
get-put-other k j v ((i, u) ∷ rest) h = elim (Bool-cases (i is j)) [
  | inl same ↦
      let e : (i is k) ≡ false = ap (λ x. x is k) ((is_iff i j).0 same) ∙ h in
      ground (arith, same, e)
  | inr other ↦ ground (arith, other, get-put-other k j v rest h)
]

is_extra-new :
    (j : Text) (payload : Payload) → is_extra j payload ≡ true → is_some (get j payload) ≡ false
is_extra-new j payload h = ground arith

is_extra-apart :
    (j k : Text) (u : Json) (payload : Payload)
    → is_extra j payload ≡ true
    → get k payload ≡ some u
    → (j is k) ≡ false
is_extra-apart j k u payload extra h = elim (Bool-cases (j is k)) [
  | inl same ↦
      let found : get j payload ≡ some u = ap (λ x. get x payload) ((is_iff j k).0 same) ∙ h in
      absurd (ground (arith, found, is_extra-new j payload extra))
  | inr apart ↦ apart
]

-- A key that is there keeps its value.
get-add_extras :
    (k : Text) (u : Json) (extras : List (Text × Json)) (payload : Payload)
    → get k payload ≡ some u
    → get k (add_extras extras payload) ≡ some u
unfolding add_extras
get-add_extras k u [] payload h = h
get-add_extras k u ((j, v) ∷ rest) payload h = elim (Bool-cases (is_extra j payload)) [
  | inl extra ↦ rw extra (
      get-add_extras k u rest (put j v payload)
        (get-put-other k j v payload (is_extra-apart j k u payload extra h) ∙ h))
  | inr skipped ↦ rw skipped (get-add_extras k u rest payload h)
]

-- A key outside the core, when the core has `k`.
core_apart :
    (component : Text) (r : LogRecord) (j k : Text) (u : Json)
    → get j (core component r) ≡ none
    → get k (core component r) ≡ some u
    → (j is k) ≡ false
core_apart component r j k u absent h = elim (Bool-cases (j is k)) [
  | inl same ↦
      let found : get j (core component r) ≡ some u =
        ap (λ x. get x (core component r)) ((is_iff j k).0 same) ∙ h in
      absurd (ground (arith, found, absent))
  | inr apart ↦ apart
]

-- A line of the log keeps its own time, level, component, logger and event, whatever fields a caller
-- adds and whatever exception it reports.
pub format-core :
    (component : Text) (r : LogRecord) (k : Text) (u : Json)
    → get k (core component r) ≡ some u
    → get k (format component r) ≡ some u
unfolding format get ◌is◌
format-core component r k u h = with_exception r.exc_info
  where
    kept : get k (add_extras r.attributes (core component r)) ≡ some u
    kept = get-add_extras k u r.attributes (core component r) h

    with_exception :
        (x : Option (Option Text × Text))
        → get k (add_exception x (add_extras r.attributes (core component r))) ≡ some u
    with_exception none = kept
    with_exception (some (name, traceback)) =
        get-put-other k (text "traceback") (str traceback) _
          (core_apart component r (text "traceback") k u refl h)
        ∙ get-put-other k (text "error_class") (class_name name) _
            (core_apart component r (text "error_class") k u refl h)
        ∙ kept
