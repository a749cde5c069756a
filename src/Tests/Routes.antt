-- ===== src/Tests/Routes.antt =====
-- The router with two routes, and a subject.
use mailagents_email_runtime.Base.{
  ◌≡◌, ℕ, ◌&&◌, Option, none, some, List, [], any, is_some, length, if◌then◌else◌,
}
use mailagents_email_runtime.Text.{Text, codes, text_eq}
use mailagents_email_runtime.Router.{
  RouteDefinition, to_upper_case, on, handle, ordered_methods, allowed_methods_for_path,
}
use mailagents_email_runtime.Subject.{strip_reply_prefixes}
use mailagents_email_runtime.Subject.Strips.{Strips, strip_reply_prefixes-Strips}
use mailagents_email_runtime.Router.Laws.{allowed_methods_lem}

-- a pattern without groups
abbrev only : Text → Text → Option ℕ
only pattern path = if text_eq pattern path then some 0 else none

abbrev routes : List (RouteDefinition ℕ ℕ)
unfolding on
routes = on (codes "post") (only (codes "/v1/agents")) 2 (on (codes "get") (only (codes "/")) 1 [])

allowed_methods_lem_example :
    any
      (text_eq (to_upper_case (codes "Post")))
      (allowed_methods_for_path routes (codes "/v1/agents"))
    ≡ (any (text_eq (to_upper_case (codes "Post"))) ordered_methods
        && is_some (handle routes (codes "Post") (codes "/v1/agents")))
allowed_methods_lem_example = allowed_methods_lem routes (codes "Post") (codes "/v1/agents")

strip_reply_prefixes-Strips_example :
    Strips
      (codes "Re: FWD: hi")
      (strip_reply_prefixes (length (codes "Re: FWD: hi")) (codes "Re: FWD: hi"))
strip_reply_prefixes-Strips_example = strip_reply_prefixes-Strips (codes "Re: FWD: hi")
