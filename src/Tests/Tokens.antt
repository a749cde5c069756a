-- ===== src/Tests/Tokens.antt =====
-- Access tokens on a platform whose signature is the length of what is signed.
use mailagents_email_runtime.Base.{
  ◌≡◌, refl, ℕ, ◌%◌, some, none, List, [], ◌∷◌, ◌++◌, length, arith,
}
use mailagents_email_runtime.Base.Int.{pos}
use mailagents_email_runtime.Text.{Text, codes, text_eq, text_eq_refl}
use mailagents_email_runtime.Json.{obj}
use mailagents_email_runtime.World.{ok}
use mailagents_email_runtime.Auth.{
  to_base64_url, from_base64_url, Platform, Claims, claims_fields, mint_access_token,
  verify_access_token, bearer, require_auth,
}
use mailagents_email_runtime.Auth.Base64.Laws.{from-to_base64_url}
use mailagents_email_runtime.Auth.Laws.{Answers, require_auth-Answers}
use mailagents_email_runtime.Auth.Mint.{verify-mint}

-- 254 and 255 are written with symbols that base64url replaces
from-to_base64_url_example :
    from_base64_url (to_base64_url (254 ∷ 255 ∷ 0 ∷ 9 ∷ [])) ≡ some (254 ∷ 255 ∷ 0 ∷ 9 ∷ [])
from-to_base64_url_example = from-to_base64_url (254 ∷ 255 ∷ 0 ∷ 9 ∷ []) (omega arith)

abbrev claims : Claims
claims = record {
  sub = codes "agent";
  tenant_id = codes "tenant_1";
  agent_id = none;
  scopes = codes "mail:read" ∷ [];
  mailbox_ids = some (codes "mailbox_5" ∷ []);
  exp = pos 100;
}

abbrev code_of : Text → List ℕ
code_of q = length q % 256 ∷ []

abbrev platform : Platform
platform = record {
  sign = λ secret q. code_of q;
  verify = λ secret code q. text_eq code (code_of q);
  stringify = λ j. codes "{}";
  parse = λ bytes. some (obj (claims_fields claims));
}

abbrev secret : Text
secret = codes "secret"

verify-mint_example :
    verify_access_token platform 5000 secret (mint_access_token platform secret claims)
    ≡ ok (some (claims_fields claims))
verify-mint_example =
    verify-mint platform 5000 secret claims (omega arith) refl refl (λ q. omega arith) (λ q. refl)
      (λ q. text_eq_refl (code_of q)) refl refl

require_auth-Answers_example :
    Answers platform 5000 secret
      (some (bearer ++ mint_access_token platform secret claims))
      (codes "mail:read" ∷ [])
      (require_auth platform 5000 secret
        (some (bearer ++ mint_access_token platform secret claims))
        (codes "mail:read" ∷ []))
require_auth-Answers_example =
    require_auth-Answers platform 5000 secret (codes "mail:read" ∷ [])
      (some (bearer ++ mint_access_token platform secret claims))
