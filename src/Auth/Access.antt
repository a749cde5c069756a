-- ===== src/Auth/Access.antt =====
-- The guards of a request: bearer tokens, what their claims give access to, and the admin secret.
use mathlib.Core.List.{reverse}
use mailagents_email_runtime.Base.{
  ℕ, Bool, true, false, not, ◌&&◌, ◌||◌, Option, none, some, List, [], ◌∷◌, any, keep,
  if◌then◌else◌, is_empty,
}
use mailagents_email_runtime.Text.{Text, codes, text_eq, to_lower_case, starts_with}
use mailagents_email_runtime.Json.{Json, arr, Items, nil, cons, Fields, property, is_text}
use mailagents_email_runtime.World.{Result, ok, err}
use mailagents_email_runtime.Auth.Token.{Platform, is_falsy, verify_access_token}

-- the claims, or a response with its status
pub data AuthResult : Type 0 where
  granted : Fields → AuthResult
  refused : ℕ → AuthResult

abbrev pub bearer : Text
bearer = codes "Bearer "

-- `.slice` of a text that starts with the prefix
abbrev pub drop_prefix : Text → Text → Text
drop_prefix [] s = s
drop_prefix (_ ∷ p) [] = []
drop_prefix (_ ∷ p) (_ ∷ s) = drop_prefix p s

-- `items.includes(text)`
abbrev pub has_text : Text → Items → Bool
has_text t nil = false
has_text t (cons v vs) = is_text t (some v) || has_text t vs

abbrev pub has_scope : Fields → Text → Bool
has_scope claims scope = elim (property "scopes" claims) [
  | none ↦ false
  | some v ↦ elim v [ arr items ↦ has_text scope items | _ ↦ false ]
]

abbrev pub missing_scopes : Fields → List Text → List Text
missing_scopes claims required = keep (λ scope. not (has_scope claims scope)) required

abbrev pub check_scopes : List Text → Option Fields → AuthResult
check_scopes required none = refused 401
check_scopes required (some claims) =
    if is_empty (missing_scopes claims required) then granted claims else refused 403

abbrev pub check_verified : List Text → Result (Option Fields) → Result AuthResult
check_verified required (ok claims) = ok (check_scopes required claims)
check_verified required (err e) = err e

module _ (p : Platform) (now : ℕ) where
  unfoldable pub check_header : Text → List Text → Option Text → Result AuthResult
  unfolding verify_access_token
  check_header secret required none = ok (refused 401)
  check_header secret required (some header) =
      if starts_with bearer header
      then check_verified required (verify_access_token p now secret (drop_prefix bearer header))
      else ok (refused 401)

  -- `requireAuth`, of the configured secret and the header; the secret is empty where none is
  -- configured
  unfoldable pub require_auth : Text → Option Text → List Text → Result AuthResult
  unfolding check_header
  require_auth secret header required =
      if is_empty secret then ok (refused 500) else check_header secret required header

-- A response of 403, or null.
abbrev refuse_unless : Bool → Option ℕ
refuse_unless b = if b then none else some 403

unfoldable pub enforce_tenant_access : Fields → Text → Option ℕ
enforce_tenant_access claims tenant = refuse_unless (is_text tenant (property "tenantId" claims))

unfoldable pub enforce_agent_access : Fields → Text → Option ℕ
enforce_agent_access claims agent =
    refuse_unless
      (not (is_falsy (property "agentId" claims)) && is_text agent (property "agentId" claims))

unfoldable pub enforce_scoped_agent_access : Fields → Text → Option ℕ
unfolding enforce_agent_access
enforce_scoped_agent_access claims agent =
    if is_falsy (property "agentId" claims) then none else enforce_agent_access claims agent

abbrev no_items : Items → Bool
no_items nil = true
no_items (cons _ _) = false

-- The runtime mints an array of mailboxes or none.
abbrev may_use : Text → Option Json → Bool
may_use mailbox (some (arr items)) = no_items items || has_text mailbox items
may_use mailbox _ = true

unfoldable pub enforce_mailbox_access : Fields → Text → Option ℕ
enforce_mailbox_access claims mailbox =
    refuse_unless (may_use mailbox (property "mailboxIds" claims))

-- of the configured secret and the header `x-admin-secret`
abbrev check_secret : Text → Option Text → Option ℕ
check_secret secret none = some 401
check_secret secret (some provided) = if text_eq provided secret then none else some 401

unfoldable pub require_admin_secret : Text → Option Text → Option ℕ
require_admin_secret secret provided =
    if is_empty secret then some 500 else check_secret secret provided

-- `parseEnabledFlag(value, false)`
unfoldable pub parse_enabled_flag : Option Text → Bool
unfolding to_lower_case
parse_enabled_flag none = false
parse_enabled_flag (some value) =
    any (λ word. text_eq word (to_lower_case value))
      (codes "1" ∷ codes "true" ∷ codes "yes" ∷ codes "on" ∷ [])

abbrev pub ends_with : Text → Text → Bool
ends_with suffix s = starts_with (reverse suffix) (reverse s)

unfoldable pub is_protected_public_hostname : Text → Bool
unfolding to_lower_case
is_protected_public_hostname hostname =
    text_eq (codes "mailagents.net") (to_lower_case hostname)
    || ends_with (codes ".mailagents.net") (to_lower_case hostname)

unfoldable pub allow_flag_on_request : Text → Option Text → Option Text → Bool
unfolding parse_enabled_flag is_protected_public_hostname
allow_flag_on_request hostname enabled override =
    if parse_enabled_flag enabled
    then (if is_protected_public_hostname hostname then parse_enabled_flag override else true)
    else false

-- `requireAdminRoutesEnabled` and `requireDebugRoutesEnabled`, each of its two flags
unfoldable pub require_routes_enabled : Text → Option Text → Option Text → Option ℕ
unfolding allow_flag_on_request
require_routes_enabled hostname enabled override =
    if allow_flag_on_request hostname enabled override then none else some 404
