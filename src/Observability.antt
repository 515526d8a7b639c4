-- ===== src/Observability.antt =====
-- app/api/observability.py, app/metrics.py and the gauges of app/worker.py: what the metrics say. The
-- Prometheus client is a library: a counter is the list of what was added to it, and the time that a
-- request took is left out.
pub mod Routes
pub mod Gauges
pub mod Spend
pub mod Scrape
use convoscore.Prelude.{
  ℕ, suc, ◌+◌, ◌-◌, Bool, true, false, ◌||◌, Option, none, some, List, [], ◌∷◌, ◌++◌, drop, length,
  if◌then◌else◌,
}
use convoscore.Text.{Text, text, ◌is◌, starts_with}

-- `t.replace(old, new, 1)`.
unfoldable pub replace_first : Text → Text → Text → Text
replace_first old new [] = if starts_with old [] then new else []
replace_first old new (c ∷ t) =
    let rest = replace_first old new t in
    if starts_with old (c ∷ t) then new ++ drop (length old) (c ∷ t) else c ∷ rest

-- What Starlette knows of a request: whether a route matched, and what its parameters captured.
pub record Request : Type 0 where
  pub method : Text
  pub path : Text
  pub has_route : Bool
  pub path_params : List (Text × Text)

abbrev pub placeholder : Text → Text
placeholder name = text "{" ++ name ++ text "}"

-- The loop of `route_template`.
unfoldable pub put_back : List (Text × Text) → Text → Text
put_back [] template = template
put_back ((name, captured) ∷ rest) template =
    put_back rest (replace_first captured (placeholder name) template)

unfoldable pub route_template : Request → Text
route_template r = if r.has_route then put_back r.path_params r.path else text "unmatched"

unfoldable pub is_excluded : Text → Bool
is_excluded path =
    (path is text "/metrics") || ((path is text "/healthz") || (path is text "/readyz"))

-- A sample of `http_requests_total`: method, route and status.
pub record Sample : Type 0 where
  pub method : Text
  pub route : Text
  pub status : ℕ

pub record HttpMetrics : Type 0 where
  pub in_progress : ℕ
  pub requests : List Sample

-- How the application answers: a response with its status, or an exception.
pub data Reply : Type 0 where
  response : ℕ → Reply
  exception : Reply

abbrev pub status_of_reply : Reply → ℕ
status_of_reply (response status) = status
status_of_reply exception = 500

-- `_record`.
abbrev pub record_request : Request → ℕ → HttpMetrics → HttpMetrics
record_request r status m = record m {
  requests = record { method = r.method; route = route_template r; status = status } ∷ m.requests;
}

-- `MetricsMiddleware.dispatch`. While it awaits `call_next` other requests may come and go.
unfoldable pub dispatch :
    Request → (HttpMetrics → Reply × HttpMetrics) → HttpMetrics → Reply × HttpMetrics
dispatch r call_next m =
    if is_excluded r.path
    then call_next m
    else (let (reply, m') = call_next (record m { in_progress = m.in_progress + 1 }) in
        let done = record m' { in_progress = m'.in_progress - 1 } in
        (reply, record_request r (status_of_reply reply) done))
