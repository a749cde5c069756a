-- ===== src/Auth/Mint.antt =====
-- A token that was minted is accepted under its secret.
use mailagents_email_runtime.Base.{
  ℕ, ◌≡◌, refl, ◌∙◌, ap, true, false, Option, none, some, List, [], ◌∷◌, ◌++◌, ◌==◌, any, is_empty,
  All, arith,
}
use mailagents_email_runtime.Base.Int.{ℤ}
use mailagents_email_runtime.Text.{Text}
use mailagents_email_runtime.Json.{obj, Fields}
use mailagents_email_runtime.World.{ok}
use mailagents_email_runtime.Auth.{
  to_base64_url, from_base64_url, Platform, Claims, claims_fields, before_dot, after_dot,
  signature_of, is_malformed, is_expired, sign_payload, verify_signature, mint_access_token,
  read_claims, verify_parts, verify_access_token, verified,
}
use mailagents_email_runtime.Auth.Base64.Laws.{
  IsByte, from-to_base64_url, to_base64_url_dotless, is_empty-to_base64_url,
}

before_dot-append : (s t : Text) → any (λ c. c == b'.') s ≡ false → before_dot (s ++ (b'.' ∷ t)) ≡ s
before_dot-append [] t h = refl
before_dot-append (c ∷ s) t h = ground (arith, before_dot-append s t)

after_dot-append : (s t : Text) → any (λ c. c == b'.') s ≡ false → after_dot (s ++ (b'.' ∷ t)) ≡ t
after_dot-append [] t h = refl
after_dot-append (c ∷ s) t h = ground (arith, after_dot-append s t)

before_dot_all : (s : Text) → any (λ c. c == b'.') s ≡ false → before_dot s ≡ s
before_dot_all [] h = refl
before_dot_all (c ∷ s) h = ground (arith, before_dot_all s)

well_formed :
    (now : ℕ) (sub tenant : Text) (agent : Option Text) (scopes : List Text)
    (mailboxes : Option (List Text)) (exp : ℤ)
    → is_empty tenant ≡ false
    → is_expired now exp ≡ false
    → is_malformed now (
        claims_fields (record {
          sub = sub;
          tenant_id = tenant;
          agent_id = agent;
          scopes = scopes;
          mailbox_ids = mailboxes;
          exp = exp;
        }))
      ≡ false
well_formed now sub tenant none scopes none exp t e = rw (t, e) refl
well_formed now sub tenant none scopes (some m) exp t e = rw (t, e) refl
well_formed now sub tenant (some a) scopes none exp t e = rw (t, e) refl
well_formed now sub tenant (some a) scopes (some m) exp t e = rw (t, e) refl

signature_of-append :
    (payload signature : Text)
    → any (λ c. c == b'.') payload ≡ false
    → any (λ c. c == b'.') signature ≡ false
    → signature_of (payload ++ (b'.' ∷ signature)) ≡ signature
signature_of-append payload signature no_dot no_dot_in =
    ap before_dot (after_dot-append payload signature no_dot) ∙ before_dot_all signature no_dot_in

module _ (p : Platform) (now : ℕ) (secret : Text) where
  accept_parts :
      (payload signature : Text) (bytes code : List ℕ) (claims : Fields)
      → is_empty payload ≡ false
      → is_empty signature ≡ false
      → from_base64_url payload ≡ some bytes
      → from_base64_url signature ≡ some code
      → p.verify secret code payload ≡ true
      → p.parse bytes ≡ some (obj claims)
      → is_malformed now claims ≡ false
      → verify_parts p now secret payload signature ≡ ok (some claims)
  unfolding verify_parts verified verify_signature read_claims
  accept_parts payload signature bytes code claims some_payload some_signature decoded read holds
        parsed formed =
      rw
        (
          some_payload, some_signature, verify_signature, read, holds, read_claims, decoded, parsed,
          formed,
        )
        refl

  verify_joined :
      (payload signature : Text)
      → any (λ c. c == b'.') payload ≡ false
      → any (λ c. c == b'.') signature ≡ false
      → verify_access_token p now secret (payload ++ (b'.' ∷ signature))
        ≡ verify_parts p now secret payload signature
  unfolding verify_access_token
  verify_joined payload signature no_dot no_dot_in =
      let token = payload ++ (b'.' ∷ signature) in
      ap (λ s. verify_parts p now secret s (signature_of token))
        (before_dot-append payload signature no_dot)
      ∙ ap (verify_parts p now secret payload)
          (signature_of-append payload signature no_dot no_dot_in)

  -- Where the claims' JSON text parses back and a signature that was made verifies, a token minted
  -- for a tenant is verified to the claims it was minted with, until its expiry has passed.
  pub verify-mint :
      (claims : Claims)
      → All IsByte (p.stringify (obj (claims_fields claims)))
      → is_empty (p.stringify (obj (claims_fields claims))) ≡ false
      → p.parse (p.stringify (obj (claims_fields claims))) ≡ some (obj (claims_fields claims))
      → ((q : Text) → All IsByte (p.sign secret q))
      → ((q : Text) → is_empty (p.sign secret q) ≡ false)
      → ((q : Text) → p.verify secret (p.sign secret q) q ≡ true)
      → is_empty claims.tenant_id ≡ false
      → is_expired now claims.exp ≡ false
      → verify_access_token p now secret (mint_access_token p secret claims)
        ≡ ok (some (claims_fields claims))
  unfolding mint_access_token sign_payload
  verify-mint claims bytes text parses code signed verifies tenant fresh =
      let json = obj (claims_fields claims) in
      let payload = to_base64_url (p.stringify json) in
      let signature = p.sign secret payload in
      verify_joined payload (to_base64_url signature) (to_base64_url_dotless _ bytes)
        (to_base64_url_dotless _ (code payload))
      ∙ accept_parts payload (to_base64_url signature) (p.stringify json) signature
          (claims_fields claims) (is_empty-to_base64_url _ bytes ∙ text)
          (is_empty-to_base64_url _ (code payload) ∙ signed payload) (from-to_base64_url _ bytes)
          (from-to_base64_url _ (code payload)) (verifies payload) parses
          (well_formed now claims.sub claims.tenant_id claims.agent_id claims.scopes
            claims.mailbox_ids claims.exp tenant fresh)
