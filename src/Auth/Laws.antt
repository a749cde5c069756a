-- ===== src/Auth/Laws.antt =====
-- What a token proves, and what a request is granted.
use mailagents_email_runtime.Base.{
  ℕ, ◌≡◌, refl, ap, ◌⊎◌, inl, inr, Bool, true, false, ◌||◌, Option, none, some, List, [], ◌∷◌, ◌++◌,
  is_empty, All, arith, Bool-cases, Option-cases,
}
use mailagents_email_runtime.Text.{Text, starts_with}
use mailagents_email_runtime.Json.{Json, Fields}
use mailagents_email_runtime.World.{Result, ok, err}
use mailagents_email_runtime.Auth.{
  from_base64_url, Platform, payload_of, signature_of, claims_of, is_malformed, accept_claims,
  verify_signature, read_claims, verify_parts, verify_access_token, verified, AuthResult, granted,
  refused, bearer, drop_prefix, has_scope, missing_scopes, check_verified, check_header,
  require_auth,
}

-- A token that its secret vouches for: its signature decodes and verifies, its payload decodes to
-- claims of a tenant, with scopes, that are not past their expiry.
abbrev pub Vouches : Platform → ℕ → Text → Text → Fields → Type 0
Vouches p now secret token claims =
    (signature : List ℕ) × (bytes : List ℕ) × (json : Json) × (from_base64_url (signature_of token)
      ≡ some signature)
    × (p.verify secret signature (payload_of token) ≡ true)
    × (from_base64_url (payload_of token) ≡ some bytes)
    × (p.parse bytes ≡ some json)
    × (claims_of json ≡ claims)
    × (is_malformed now claims ≡ false)

abbrev Verifies : Platform → ℕ → Text → Text → Result (Option Fields) → Type 0
Verifies p now secret token (ok (some claims)) = Vouches p now secret token claims
Verifies p now secret token (ok none) = Unit
Verifies p now secret token (err e) = from_base64_url (signature_of token) ≡ none

module _ (p : Platform) (now : ℕ) (secret token : Text) where
  accept-Vouches :
      (signature bytes : List ℕ)
      → from_base64_url (signature_of token) ≡ some signature
      → p.verify secret signature (payload_of token) ≡ true
      → from_base64_url (payload_of token) ≡ some bytes
      → Verifies p now secret token (ok (accept_claims now (p.parse bytes)))
  accept-Vouches signature bytes read holds decoded = elim (Option-cases (p.parse bytes)) [
    | inl unparsed ↦ rw unparsed tt
    | inr (json, parsed) ↦ elim (Bool-cases (is_malformed now (claims_of json))) [
      | inl malformed ↦ rw (parsed, malformed) tt
      | inr formed ↦
          rw (parsed, formed) (signature, bytes, json, read, holds, decoded, parsed, refl, formed)
    ]
  ]

  read_claims-Vouches :
      (signature : List ℕ)
      → from_base64_url (signature_of token) ≡ some signature
      → p.verify secret signature (payload_of token) ≡ true
      → Verifies p now secret token (ok (read_claims p now (payload_of token)))
  unfolding read_claims
  read_claims-Vouches signature read holds =
      elim (Option-cases (from_base64_url (payload_of token))) [
        | inl undecoded ↦ rw (undecoded, read_claims) tt
        | inr (bytes, decoded) ↦
            rw (decoded, read_claims) (accept-Vouches signature bytes read holds decoded)
      ]

  verified-Verifies : Verifies p now secret token (
      verified p now
        (payload_of token)
        (verify_signature p secret (payload_of token) (signature_of token)))
  unfolding verify_signature verified
  verified-Verifies = elim (Option-cases (from_base64_url (signature_of token))) [
    | inl undecoded ↦ rw (undecoded, verify_signature) undecoded
    | inr (signature, read) ↦ elim (Bool-cases (p.verify secret signature (payload_of token))) [
      | inl holds ↦ rw (read, verify_signature, holds) (read_claims-Vouches signature read holds)
      | inr fails ↦ rw (read, verify_signature, fails) tt
    ]
  ]

  verify-Verifies : Verifies p now secret token (verify_access_token p now secret token)
  unfolding verify_access_token verify_parts
  verify-Verifies =
      elim (Bool-cases (is_empty (payload_of token) || is_empty (signature_of token))) [
        | inl lacks ↦ rw lacks tt
        | inr has ↦ rw has verified-Verifies
      ]

-- A bearer token, as the header carries it.
abbrev pub Carries : Option Text → Text → Type 0
Carries header token = header ≡ some (bearer ++ token)

abbrev has_bearer : Option Text → Bool
has_bearer none = false
has_bearer (some h) = starts_with bearer h

-- What each answer of the guard says of the secret, the header and the scopes.
abbrev pub Answers : Platform → ℕ → Text → Option Text → List Text → Result AuthResult → Type 0
Answers p now secret header required (ok (granted claims)) =
    (token : Text) × Carries header token
    × (is_empty secret ≡ false)
    × Vouches p now secret token claims
    × All (λ scope. has_scope claims scope ≡ true) required
Answers p now secret header required (ok (refused status)) =
    ((status ≡ 500) × (is_empty secret ≡ true))
    ⊎ (((status ≡ 401)
          × ((has_bearer header ≡ false)
              ⊎ ((token : Text) × Carries header token
                  × (verify_access_token p now secret token ≡ ok none))))
        ⊎ ((status ≡ 403)
            × ((token : Text) × (claims : Fields) × Carries header token
                × Vouches p now secret token claims
                × (is_empty (missing_scopes claims required) ≡ false))))
Answers p now secret header required (err e) =
    (token : Text) × Carries header token × (from_base64_url (signature_of token) ≡ none)

prefix_append : (p s : Text) → starts_with p s ≡ true → s ≡ p ++ drop_prefix p s
prefix_append [] s h = refl
prefix_append (a ∷ p) [] h = cc
prefix_append (a ∷ p) (b ∷ s) h = ground (arith, prefix_append p s)

All-scopes :
    (claims : Fields) (required : List Text)
    → is_empty (missing_scopes claims required) ≡ true
    → All (λ scope. has_scope claims scope ≡ true) required
All-scopes claims [] h = tt
All-scopes claims (s ∷ required) h = elim (Bool-cases (has_scope claims s)) [
  | inl has ↦ (has, All-scopes claims required (rw has at h))
  | inr lacks ↦ absurd (is_empty_cons (missing_scopes claims required) (rw lacks at h))
]
  where
    is_empty_cons : (ss : List Text) → is_empty (s ∷ ss) ≡ true → ⊥
    is_empty_cons ss e = cc

module _ (p : Platform) (now : ℕ) (secret token : Text) (required : List Text) where
  token-Answers :
      (header : Option Text) (r : Result (Option Fields))
      → Carries header token
      → is_empty secret ≡ false
      → verify_access_token p now secret token ≡ r
      → Verifies p now secret token r
      → Answers p now secret header required (check_verified required r)
  token-Answers header (ok none) carries some_secret e v = inr (inl (refl, inr (token, carries, e)))
  token-Answers header (err x) carries some_secret e v = (token, carries, v)
  token-Answers header (ok (some claims)) carries some_secret e v =
      elim (Bool-cases (is_empty (missing_scopes claims required))) [
        | inl has ↦ rw has (token, carries, some_secret, v, All-scopes claims required has)
        | inr lacks ↦ rw lacks (inr (inr (refl, (token, claims, carries, v, lacks))))
      ]

module _ (p : Platform) (now : ℕ) (secret : Text) (required : List Text) where
  header-Answers :
      (header : Option Text)
      → is_empty secret ≡ false
      → Answers p now secret header required (check_header p now secret required header)
  unfolding check_header
  header-Answers none h = inr (inl (refl, inl refl))
  header-Answers (some header) h = elim (Bool-cases (starts_with bearer header)) [
    | inr lacks ↦ rw lacks (inr (inl (refl, inl lacks)))
    | inl has ↦
        let token = drop_prefix bearer header in
        rw has (
          token-Answers p now secret token required (some header)
            (verify_access_token p now secret token) (ap some (prefix_append bearer header has)) h
            refl (verify-Verifies p now secret token))
  ]

  -- A request is granted its claims only on a bearer token whose signature verifies under the
  -- configured secret, whose payload decodes to claims that have a tenant and a list of scopes and
  -- are not past their expiry, and whose scopes include every required one. It is refused with 500
  -- only where no secret is configured, with 401 only without a bearer token or on one that is not
  -- accepted, and with 403 only where such claims lack a required scope; it throws only where the
  -- token's signature is not base64url.
  pub require_auth-Answers :
      (header : Option Text)
      → Answers p now secret header required (require_auth p now secret header required)
  unfolding require_auth
  require_auth-Answers header = elim (Bool-cases (is_empty secret)) [
    | inl empty ↦ rw empty (inl (refl, empty))
    | inr given ↦ rw given (header-Answers header given)
  ]
