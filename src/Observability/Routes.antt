-- ===== src/Observability/Routes.antt =====
-- The labels of the request metrics.
use convoscore.Prelude.{
  ℕ, ◌+◌, Bool, true, false, ◌||◌, [], ◌∷◌, ◌++◌, ◌≡◌, ◌⊎◌, refl, sym, ap, ◌∙◌, arith, drop, length,
  Bool-cases, inl, inr,
}
use convoscore.Text.{Text, starts_with, starts_with-append}
use convoscore.Observability.{
  replace_first, Request, placeholder, put_back, route_template, is_excluded, HttpMetrics, Reply,
  status_of_reply, dispatch,
}

drop-length : (s t : Text) → drop (length s) (s ++ t) ≡ t
drop-length [] t = refl
drop-length (c ∷ s) t = drop-length s t

-- The text `sub` begins at no place of `front` in `front ++ rest`.
unfoldable pub begins_in : Text → Text → Text → Bool
begins_in sub [] rest = false
begins_in sub (c ∷ front) rest = starts_with sub (c ∷ front ++ rest) || begins_in sub front rest

append_nil : (t : Text) → t ++ [] ≡ t
append_nil [] = refl
append_nil (c ∷ t) = ap (λ u. c ∷ u) (append_nil t)

replace_first-start :
    (old new t : Text)
    → starts_with old t ≡ true
    → replace_first old new t ≡ new ++ drop (length old) t
unfolding replace_first starts_with
replace_first-start [] new [] h = sym (append_nil new)
replace_first-start (c ∷ s) new [] h = absurd (ground arith)
replace_first-start old new (c ∷ t) h = rw h refl

replace_first-append :
    (front old new rest : Text)
    → begins_in old front (old ++ rest) ≡ false
    → replace_first old new (front ++ (old ++ rest)) ≡ front ++ (new ++ rest)
unfolding replace_first begins_in
replace_first-append [] old new rest h =
    replace_first-start old new (old ++ rest) (starts_with-append old rest)
    ∙ ap (λ t. new ++ t) (drop-length old rest)
replace_first-append (c ∷ front) old new rest h =
    ground (arith, replace_first-append front old new rest)

-- Whatever a request's parameter captures, its label is the same: the path with the placeholder in
-- the parameter's place. The captured text begins nowhere before that place.
pub route_template-label :
    (method front name captured rest : Text)
    → begins_in captured front (captured ++ rest) ≡ false
    → route_template (record {
      method = method;
      path = front ++ (captured ++ rest);
      has_route = true;
      path_params = (name, captured) ∷ [];
    })
      ≡ front ++ (placeholder name ++ rest)
unfolding route_template put_back
route_template-label method front name captured rest h =
    replace_first-append front captured (placeholder name) rest h

-- What one request leaves in the metrics, while `call_next` lets `others` more requests begin than end:
-- the gauge counts those alone, a probe or a scrape leaves no sample, and every other request leaves
-- one with its method, its label and its status, 500 for an exception. The client gets what the
-- application answered.
pub dispatch_counts :
    (r : Request) (call_next : HttpMetrics → Reply × HttpMetrics) (others : ℕ) (m : HttpMetrics)
    → ((n : HttpMetrics) → (call_next n).1.in_progress ≡ n.in_progress + others)
    → let p = dispatch r call_next m in
      (p.1.in_progress ≡ m.in_progress + others)
      × (((is_excluded r.path ≡ true) × (p ≡ call_next m))
          ⊎ ((is_excluded r.path ≡ false)
              × (let inner = call_next (record m { in_progress = m.in_progress + 1 }) in
                  (p.0 ≡ inner.0)
                  × (p.1.requests
                      ≡ record {
                        method = r.method;
                        route = route_template r;
                        status = status_of_reply inner.0;
                      }
                        ∷ inner.1.requests))))
unfolding dispatch
dispatch_counts r call_next others m h = elim (Bool-cases (is_excluded r.path)) [
  | inl out ↦ rw out (h m, inl (refl, refl))
  | inr counted ↦
      rw counted
        (omega (arith, h (record m { in_progress = m.in_progress + 1 })), inr (refl, (refl, refl)))
]
