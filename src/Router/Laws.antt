-- ===== src/Router/Laws.antt =====
-- A request is handled exactly where its method is allowed for its path.
use mailagents_email_runtime.Base.{
  ◌≡◌, refl, sym, ◌∙◌, ap, ◌&&◌, Option, none, some, List, [], ◌∷◌, ◌++◌, keep, any, is_some, arith,
  Bool-cases, inl, inr,
}
use mailagents_email_runtime.Text.{Text, text_eq, eq_of_text_eq}
use mailagents_email_runtime.Router.{
  RouteDefinition, to_upper_case, on, handle, ordered_methods, methods_for,
  allowed_methods_for_path,
}

module _ {Handler Groups : Type 0} where
  handled_lem :
      (routes : List (RouteDefinition Handler Groups)) (method path : Text)
      → is_some (handle routes method path)
        ≡ any (text_eq (to_upper_case method)) (methods_for routes path)
  unfolding handle
  handled_lem [] method path = refl
  handled_lem (route ∷ routes) method path = ground (arith, handled_lem routes method path)

any-keep :
    (M : Text) (names methods : List Text)
    → any (text_eq M) (keep (λ method. any (text_eq method) names) methods)
      ≡ (any (text_eq M) methods && any (text_eq M) names)
any-keep M names [] = refl
any-keep M names (m ∷ methods) = elim (Bool-cases (text_eq M m)) [
  | inl same ↦
      let e : any (text_eq m) names ≡ any (text_eq M) names = rw (eq_of_text_eq M m same) refl in
      ground (arith, any-keep M names methods)
  | inr other ↦ ground (arith, any-keep M names methods)
]

module _ {Handler Groups : Type 0} (routes : List (RouteDefinition Handler Groups))
    (method path : Text) where
  -- A method that the router lists is allowed for a path exactly where a request of that method,
  -- in whatever case, finds a handler.
  pub allowed_methods_lem :
      any (text_eq (to_upper_case method)) (allowed_methods_for_path routes path) ≡ (
        any (text_eq (to_upper_case method)) ordered_methods && is_some (handle routes method path))
  unfolding allowed_methods_for_path
  allowed_methods_lem =
      any-keep (to_upper_case method) (methods_for routes path) ordered_methods
      ∙ ap (λ b. any (text_eq (to_upper_case method)) ordered_methods && b)
          (sym (handled_lem routes method path))

  abbrev pub or_else :
      Option (Handler × Groups) → Option (Handler × Groups) → Option (Handler × Groups)
  or_else none other = other
  or_else (some h) other = some h

  handle-append :
      (later : List (RouteDefinition Handler Groups))
      (earlier : List (RouteDefinition Handler Groups))
      → handle (earlier ++ later) method path
        ≡ or_else (handle earlier method path) (handle later method path)
  unfolding handle
  handle-append later [] = refl
  handle-append later (r ∷ rs) = ground (arith, handle-append later rs)

  -- A route that is added answers only the requests that no earlier route answers.
  pub handle-on :
      (name : Text) (exec : Text → Option Groups) (handler : Handler)
      → handle (on name exec handler routes) method path
        ≡ or_else (handle routes method path) (handle (on name exec handler []) method path)
  unfolding on
  handle-on name exec handler =
      handle-append (record { method = to_upper_case name; exec = exec; handler = handler } ∷ [])
        routes
