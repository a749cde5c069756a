-- ===== src/Auth/Token.antt =====
-- Minting and verifying an access token.
use Prim.Native.String.{String}
use mailagents_email_runtime.Base.{
  ℕ, ◌/◌, Bool, true, false, not, ◌||◌, Option, none, some, List, [], ◌∷◌, ◌++◌, ◌==◌,
  if◌then◌else◌, is_empty,
}
use mailagents_email_runtime.Base.Int.{ℤ, pos, ltb_ℤ, is_zero}
use mailagents_email_runtime.Text.{Text}
use mailagents_email_runtime.Json.{
  Json, null, bool, num, str, arr, obj, Fields, field, end, property, as_number, from_texts,
}
use mailagents_email_runtime.World.{Result, ok, err, plain}
use mailagents_email_runtime.Auth.Base64.{to_base64_url, from_base64_url}

-- Web Crypto's HMAC, and JSON text as bytes of UTF-8; `parse` is none where it throws.
pub record Platform : Type 0 where
  pub sign : Text → Text → List ℕ
  pub verify : Text → List ℕ → Text → Bool
  pub stringify : Json → List ℕ
  pub parse : List ℕ → Option Json

-- `AccessTokenClaims`
pub record Claims : Type 0 where
  pub sub : Text
  pub tenant_id : Text
  pub agent_id : Option Text
  pub scopes : List Text
  pub mailbox_ids : Option (List Text)
  pub exp : ℤ

abbrev optional_field : String → Option Json → Fields → Fields
optional_field k none rest = rest
optional_field k (some v) rest = field k v rest

abbrev text_json : Option Text → Option Json
text_json none = none
text_json (some t) = some (str t)

abbrev texts_json : Option (List Text) → Option Json
texts_json none = none
texts_json (some ts) = some (arr (from_texts ts))

-- the properties of claims that are stringified: one that is `undefined` is left out
abbrev pub claims_fields : Claims → Fields
claims_fields c = field "sub" (str c.sub) (
    field "tenantId" (str c.tenant_id) (
      optional_field "agentId" (text_json c.agent_id) (
        field "scopes" (arr (from_texts c.scopes))
          (optional_field "mailboxIds" (texts_json c.mailbox_ids) (field "exp" (num c.exp) end)))))

-- the text before the first dot, and the text behind it
abbrev pub before_dot : Text → Text
before_dot [] = []
before_dot (c ∷ s) = let rest = before_dot s in if c == b'.' then [] else c ∷ rest

abbrev pub after_dot : Text → Text
after_dot [] = []
after_dot (c ∷ s) = let rest = after_dot s in if c == b'.' then s else rest

-- `const [payload, signature] = token.split(".")`; a signature that is `undefined` is treated as
-- one that is empty
abbrev pub payload_of : Text → Text
payload_of token = before_dot token

abbrev pub signature_of : Text → Text
signature_of token = before_dot (after_dot token)

-- `!value`
abbrev pub is_falsy : Option Json → Bool
is_falsy none = true
is_falsy (some null) = true
is_falsy (some (bool b)) = not b
is_falsy (some (num n)) = is_zero n
is_falsy (some (str s)) = is_empty s
is_falsy (some (arr _)) = false
is_falsy (some (obj _)) = false

-- the properties that are read of a parsed value
abbrev pub claims_of : Json → Fields
claims_of (obj fs) = fs
claims_of _ = end

-- `claims.exp < Math.floor(Date.now() / 1000)`, `now` in milliseconds
abbrev pub is_expired : ℕ → ℤ → Bool
is_expired now exp = ltb_ℤ exp (pos (now / 1000))

abbrev pub has_array : Option Json → Bool
has_array (some (arr _)) = true
has_array _ = false

-- `typeof claims.exp !== "number"`, or expired
abbrev pub is_outdated : ℕ → Option ℤ → Bool
is_outdated now none = true
is_outdated now (some exp) = is_expired now exp

abbrev pub is_malformed : ℕ → Fields → Bool
is_malformed now claims =
    is_falsy (property "tenantId" claims)
    || (not (has_array (property "scopes" claims))
        || is_outdated now (as_number (property "exp" claims)))

abbrev pub accept_claims : ℕ → Option Json → Option Fields
accept_claims now none = none
accept_claims now (some json) =
    if is_malformed now (claims_of json) then none else some (claims_of json)

module _ (p : Platform) where
  unfoldable pub sign_payload : Text → Text → Text
  unfolding to_base64_url
  sign_payload secret payload = to_base64_url (p.sign secret payload)

  -- none where `atob` throws
  unfoldable pub verify_signature : Text → Text → Text → Option Bool
  unfolding from_base64_url
  verify_signature secret payload signature = elim (from_base64_url signature) [
    | none ↦ none
    | some bytes ↦ some (p.verify secret bytes payload)
  ]

  unfoldable pub mint_access_token : Text → Claims → Text
  unfolding to_base64_url sign_payload
  mint_access_token secret claims =
      let payload = to_base64_url (p.stringify (obj (claims_fields claims))) in
      payload ++ (b'.' ∷ sign_payload secret payload)

  -- the `try` block: what throws in it is null
  unfoldable pub read_claims : ℕ → Text → Option Fields
  unfolding from_base64_url
  read_claims now payload = elim (from_base64_url payload) [
    | none ↦ none
    | some bytes ↦ accept_claims now (p.parse bytes)
  ]

  unfoldable pub verified : ℕ → Text → Option Bool → Result (Option Fields)
  unfolding read_claims
  verified now payload none = err plain
  verified now payload (some false) = ok none
  verified now payload (some true) = ok (read_claims now payload)

  unfoldable pub verify_parts : ℕ → Text → Text → Text → Result (Option Fields)
  unfolding verify_signature verified
  verify_parts now secret payload signature =
      if is_empty payload || is_empty signature
      then ok none
      else verified now payload (verify_signature secret payload signature)

  unfoldable pub verify_access_token : ℕ → Text → Text → Result (Option Fields)
  unfolding verify_parts
  verify_access_token now secret token =
      verify_parts now secret (payload_of token) (signature_of token)
