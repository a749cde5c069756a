-- ===== src/Auth/Base64.antt =====
-- `toBase64Url` and `fromBase64Url` of src/lib/auth.ts, over the `btoa` and `atob` of the language.
pub mod Laws
use mailagents_email_runtime.Base.{
  zero, suc, ℕ, ◌+◌, ◌-◌, ◌*◌, ◌/◌, ◌%◌, Bool, true, false, not, ◌&&◌, ◌||◌, Option, none, some,
  List, [], ◌∷◌, ◌++◌, map, ltb, leb, ◌==◌, if◌then◌else◌, length, keep, is_empty,
}
use mailagents_email_runtime.Text.{Text}

-- the symbol of a number below 64, and the number of a symbol
abbrev pub symbol : ℕ → ℕ
symbol n =
    if ltb n 26
    then n + b'A'
    else if ltb n 52
    then n - 26 + b'a'
    else if ltb n 62
    then n - 52 + b'0'
    else if n == 62
    then b'+'
    else b'/'

abbrev pub digit : ℕ → Option ℕ
digit c =
    if leb b'A' c && leb c b'Z'
    then some (c - b'A')
    else if leb b'a' c && leb c b'z'
    then some (c - b'a' + 26)
    else if leb b'0' c && leb c b'9'
    then some (c - b'0' + 52)
    else if c == b'+'
    then some 62
    else if c == b'/'
    then some 63
    else none

-- `btoa`, three bytes at a time
abbrev pub btoa : List ℕ → Text
btoa [] = []
btoa (a ∷ []) = symbol (a / 4) ∷ symbol (a % 4 * 16) ∷ b'=' ∷ b'=' ∷ []
btoa (a ∷ b ∷ []) = symbol (a / 4) ∷ symbol (a % 4 * 16 + b / 16) ∷ symbol (b % 16 * 4) ∷ b'=' ∷ []
btoa (a ∷ b ∷ c ∷ rest) =
    symbol (a / 4)
    ∷ symbol (a % 4 * 16 + b / 16)
    ∷ symbol (b % 16 * 4 + c / 64)
    ∷ symbol (c % 64)
    ∷ btoa rest

infixl 5 ◌>>=◌
abbrev ◌>>=◌ : {A B : Type 0} → Option A → (A → Option B) → Option B
none >>= k = none
some a >>= k = k a

-- the bytes of a text whose padding is removed; a symbol outside the alphabet, or one that is left
-- over, is an error
abbrev pub decode : Text → Option (List ℕ)
decode [] = some []
decode (a ∷ []) = none
decode (a ∷ b ∷ []) = do p ← digit a; q ← digit b; some ((p * 4 + q / 16) ∷ [])
decode (a ∷ b ∷ c ∷ []) = do
  p ← digit a
  q ← digit b
  r ← digit c
  some ((p * 4 + q / 16) ∷ (q % 16 * 16 + r / 4) ∷ [])
decode (a ∷ b ∷ c ∷ d ∷ rest) = do
  p ← digit a
  q ← digit b
  r ← digit c
  s ← digit d
  bytes ← decode rest
  some ((p * 4 + q / 16) ∷ (q % 16 * 16 + r / 4) ∷ (r % 4 * 64 + s) ∷ bytes)

abbrev is_padding : Text → Bool
is_padding (c ∷ []) = c == b'='
is_padding (c ∷ d ∷ []) = c == b'=' && d == b'='
is_padding _ = false

-- one or two `=` at the end are removed
abbrev pub drop_padding : Text → Text
drop_padding [] = []
drop_padding (c ∷ s) = let rest = drop_padding s in if is_padding (c ∷ s) then [] else c ∷ rest

abbrev pub is_ascii_space : ℕ → Bool
is_ascii_space c = c == 32 || c == 9 || c == 10 || c == 12 || c == 13

abbrev pub without_padding : Text → Text
without_padding s = if length s % 4 == 0 then drop_padding s else s

-- `atob`; none is its error
abbrev pub atob : Text → Option (List ℕ)
atob s = decode (without_padding (keep (λ c. not (is_ascii_space c)) s))

-- `.replace(/\+/g, "-").replace(/\//g, "_")`, and back
abbrev pub to_url : ℕ → ℕ
to_url c = if c == b'+' then b'-' else if c == b'/' then b'_' else c

abbrev pub from_url : ℕ → ℕ
from_url c = if c == b'-' then b'+' else if c == b'_' then b'/' else c

-- `.replace(/=+$/g, "")`
abbrev pub strip_padding : Text → Text
strip_padding [] = []
strip_padding (c ∷ s) =
    let rest = strip_padding s in if c == b'=' && is_empty rest then [] else c ∷ rest

unfoldable pub to_base64_url : List ℕ → Text
to_base64_url bytes = strip_padding (map to_url (btoa bytes))

abbrev pub replicate : ℕ → ℕ → Text
replicate zero c = []
replicate (suc n) c = c ∷ replicate n c

-- `.padEnd(Math.ceil(input.length / 4) * 4, "=")`; the replacements keep the length
abbrev pub pad_end : Text → Text
pad_end s = s ++ replicate ((length s + 3) / 4 * 4 - length s) b'='

unfoldable pub from_base64_url : Text → Option (List ℕ)
from_base64_url input = atob (pad_end (map from_url input))
