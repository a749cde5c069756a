-- ===== src/Router.antt =====
-- The router: src/lib/router.ts. What `URLPattern` matches, the request that a handler is run on and
-- its response are arguments.
pub mod Laws
use mailagents_email_runtime.Base.{
  ℕ, ◌-◌, map, leb, is_some, Bool, true, false, ◌&&◌, ◌||◌, Option, none, some, List, [], ◌∷◌, ◌++◌,
  keep, any, if◌then◌else◌,
}
use mailagents_email_runtime.Text.{Text, codes, text_eq}

-- `toUpperCase`, on ASCII letters
abbrev pub upper : ℕ → ℕ
upper c = if leb b'a' c && leb c b'z' then c - 32 else c

abbrev pub to_upper_case : Text → Text
to_upper_case s = map upper s

-- a route of the table, its pattern by the paths that it matches
pub record RouteDefinition (Handler Groups : Type 0) : Type 0 where
  pub method : Text
  pub exec : Text → Option Groups
  pub handler : Handler

abbrev pub ordered_methods : List Text
ordered_methods =
    codes "GET"
    ∷ codes "HEAD"
    ∷ codes "POST"
    ∷ codes "PUT"
    ∷ codes "PATCH"
    ∷ codes "DELETE"
    ∷ codes "OPTIONS"
    ∷ []

module _ {Handler Groups : Type 0} where
  -- `on`
  unfoldable pub on :
      Text
      → (Text → Option Groups)
      → Handler
      → List (RouteDefinition Handler Groups)
      → List (RouteDefinition Handler Groups)
  on method exec handler routes =
      routes ++ (record { method = to_upper_case method; exec = exec; handler = handler } ∷ [])

  -- the handler that `handle` runs, with the groups of the path; none is its null
  unfoldable pub handle :
      List (RouteDefinition Handler Groups) → Text → Text → Option (Handler × Groups)
  handle [] method path = none
  handle (route ∷ routes) method path =
      let rest = handle routes method path in
      if text_eq (to_upper_case method) route.method
      then elim (route.exec path) [ none ↦ rest | some groups ↦ some (route.handler, groups) ]
      else rest

  abbrev pub matches : Text → RouteDefinition Handler Groups → Bool
  matches path route = is_some (route.exec path)

  -- The set of the methods of the routes that match; `methods.has` looks a method up in it.
  abbrev pub methods_for : List (RouteDefinition Handler Groups) → Text → List Text
  methods_for [] path = []
  methods_for (route ∷ routes) path =
      let rest = methods_for routes path in if matches path route then route.method ∷ rest else rest

  unfoldable pub allowed_methods_for_path : List (RouteDefinition Handler Groups) → Text → List Text
  allowed_methods_for_path routes path =
      keep (λ method. any (text_eq method) (methods_for routes path)) ordered_methods
