-- ===== src/Auth/Base64/Laws.antt =====
-- What `toBase64Url` writes is read back by `fromBase64Url`.
use mailagents_email_runtime.Base.{
  zero, suc, ℕ, ◌+◌, ◌-◌, ◌*◌, ◌/◌, ◌%◌, ◌<◌, ◌≡◌, ◌≢◌, refl, ap, true, false, not, some, List, [],
  ◌∷◌, ◌++◌, map, ◌==◌, length, keep, is_empty, All, any, arith, length-append, ◌≤◌,
}
use mailagents_email_runtime.Text.{Text}
use mailagents_email_runtime.Auth.Base64.{
  symbol, digit, btoa, decode, is_padding, drop_padding, is_ascii_space, atob, to_url, from_url,
  strip_padding, to_base64_url, replicate, pad_end, from_base64_url,
}

abbrev pub IsByte : ℕ → Type 0
IsByte b = b < 256

-- the symbols of the bytes, without padding
abbrev symbols : List ℕ → Text
symbols [] = []
symbols (a ∷ []) = symbol (a / 4) ∷ symbol (a % 4 * 16) ∷ []
symbols (a ∷ b ∷ []) = symbol (a / 4) ∷ symbol (a % 4 * 16 + b / 16) ∷ symbol (b % 16 * 4) ∷ []
symbols (a ∷ b ∷ c ∷ rest) =
    symbol (a / 4)
    ∷ symbol (a % 4 * 16 + b / 16)
    ∷ symbol (b % 16 * 4 + c / 64)
    ∷ symbol (c % 64)
    ∷ symbols rest

-- A symbol of the alphabet.
abbrev IsSymbol : ℕ → Type 0
IsSymbol c =
    (from_url (to_url c) ≡ c)
    × (to_url c ≢ b'=')
    × (to_url c ≢ b'.')
    × (c ≢ b'=')
    × (is_ascii_space c ≡ false)

symbol-IsSymbol : (n : ℕ) → n < 64 → IsSymbol (symbol n)
symbol-IsSymbol n h = (ground arith, ground arith, ground arith, ground arith, ground arith)

digit-symbol : (n : ℕ) → n < 64 → digit (symbol n) ≡ some n
digit-symbol n h = ground arith

symbols-IsSymbol : (bs : List ℕ) → All IsByte bs → All IsSymbol (symbols bs)
symbols-IsSymbol [] h = tt
symbols-IsSymbol (a ∷ []) h =
    (symbol-IsSymbol (a / 4) (omega arith), (symbol-IsSymbol (a % 4 * 16) (omega arith), tt))
symbols-IsSymbol (a ∷ b ∷ []) h = (
  symbol-IsSymbol (a / 4) (omega arith),
  (
    symbol-IsSymbol (a % 4 * 16 + b / 16) (omega arith),
    (symbol-IsSymbol (b % 16 * 4) (omega arith), tt),
  ),
)
symbols-IsSymbol (a ∷ b ∷ c ∷ rest) h = (
  symbol-IsSymbol (a / 4) (omega arith),
  (
    symbol-IsSymbol (a % 4 * 16 + b / 16) (omega arith),
    (
      symbol-IsSymbol (b % 16 * 4 + c / 64) (omega arith),
      (symbol-IsSymbol (c % 64) (omega arith), symbols-IsSymbol rest h.1.1.1),
    ),
  ),
)

decode-symbols : (bs : List ℕ) → All IsByte bs → decode (symbols bs) ≡ some bs
decode-symbols [] h = refl
decode-symbols (a ∷ []) h = ground (arith, digit-symbol (a / 4), digit-symbol (a % 4 * 16))
decode-symbols (a ∷ b ∷ []) h =
    ground
      (arith, digit-symbol (a / 4), digit-symbol (a % 4 * 16 + b / 16), digit-symbol (b % 16 * 4))
decode-symbols (a ∷ b ∷ c ∷ rest) h = ground (
  arith,
  digit-symbol (a / 4),
  digit-symbol (a % 4 * 16 + b / 16),
  digit-symbol (b % 16 * 4 + c / 64),
  digit-symbol (c % 64),
  decode-symbols rest h.1.1.1,
)

-- the symbols that `padEnd` adds
abbrev missing : Text → ℕ
missing s = (length s + 3) / 4 * 4 - length s

missing_four :
    (n : ℕ) → (suc (suc (suc (suc n))) + 3) / 4 * 4 - suc (suc (suc (suc n))) ≡ (n + 3) / 4 * 4 - n
missing_four n = omega arith

btoa-symbols : (bs : List ℕ) → btoa bs ≡ pad_end (symbols bs)
btoa-symbols [] = refl
btoa-symbols (a ∷ []) = refl
btoa-symbols (a ∷ b ∷ []) = refl
btoa-symbols (a ∷ b ∷ c ∷ rest) = rw (missing_four (length (symbols rest)), btoa-symbols rest) refl

length-symbols : (bs : List ℕ) → missing (symbols bs) ≤ 2
length-symbols [] = omega arith
length-symbols (a ∷ []) = omega arith
length-symbols (a ∷ b ∷ []) = omega arith
length-symbols (a ∷ b ∷ c ∷ rest) = omega (arith, length-symbols rest)

strip-replicate : (k : ℕ) → strip_padding (map to_url (replicate k b'=')) ≡ []
strip-replicate zero = refl
strip-replicate (suc k) = rw (strip-replicate k) refl

strip-append :
    (s : Text) (k : ℕ)
    → All IsSymbol s
    → strip_padding (map to_url (s ++ replicate k b'=')) ≡ map to_url s
strip-append [] k h = strip-replicate k
strip-append (c ∷ s) k h = ground (arith, strip-append s k h.1)

from-to_url : (s : Text) → All IsSymbol s → map from_url (map to_url s) ≡ s
from-to_url [] h = refl
from-to_url (c ∷ s) h = cc (h.0.0, from-to_url s h.1)

keep-replicate : (k : ℕ) → keep (λ c. not (is_ascii_space c)) (replicate k b'=') ≡ replicate k b'='
keep-replicate zero = refl
keep-replicate (suc k) = ap (λ s. b'=' ∷ s) (keep-replicate k)

keep-append :
    (s : Text) (k : ℕ)
    → All IsSymbol s
    → keep (λ c. not (is_ascii_space c)) (s ++ replicate k b'=') ≡ s ++ replicate k b'='
keep-append [] k h = keep-replicate k
keep-append (c ∷ s) k h = ground (arith, keep-append s k h.1)

drop-replicate : (k : ℕ) → k ≤ 2 → drop_padding (replicate k b'=') ≡ []
drop-replicate zero h = refl
drop-replicate (suc zero) h = refl
drop-replicate (suc (suc zero)) h = refl
drop-replicate (suc (suc (suc k))) h = absurd (omega arith)

not_padding : (c : ℕ) (s : Text) → c ≢ b'=' → is_padding (c ∷ s) ≡ false
not_padding c [] h = ground arith
not_padding c (d ∷ []) h = ground arith
not_padding c (d ∷ e ∷ s) h = refl

drop-append : (s : Text) (k : ℕ) → All IsSymbol s → k ≤ 2 → drop_padding (s ++ replicate k b'=') ≡ s
drop-append [] k h le = drop-replicate k le
drop-append (c ∷ s) k h le =
    rw (drop-append s k h.1 le, not_padding c (s ++ replicate k b'=') h.0.3) refl

length-replicate : (k c : ℕ) → length (replicate k c) ≡ k
length-replicate zero c = refl
length-replicate (suc k) c = ap suc (length-replicate k c)

length-pad_end : (s : Text) → (length (pad_end s) % 4 == 0) ≡ true
length-pad_end s =
    ground (arith, length-append s (replicate (missing s) b'='), length-replicate (missing s) b'=')

atob-pad_end : (bs : List ℕ) → All IsByte bs → atob (pad_end (symbols bs)) ≡ some bs
atob-pad_end bs h =
    let are = symbols-IsSymbol bs h in
    rw
      (
        keep-append (symbols bs) (missing (symbols bs)) are,
        length-pad_end (symbols bs),
        drop-append (symbols bs) (missing (symbols bs)) are (length-symbols bs),
      )
      (decode-symbols bs h)

to_base64_url_lem : (bs : List ℕ) → All IsByte bs → to_base64_url bs ≡ map to_url (symbols bs)
unfolding to_base64_url
to_base64_url_lem bs h =
    rw (btoa-symbols bs) (strip-append (symbols bs) (missing (symbols bs)) (symbols-IsSymbol bs h))

-- Decoding what was encoded gives the bytes back, for every list of bytes.
pub from-to_base64_url :
    (bs : List ℕ) → All IsByte bs → from_base64_url (to_base64_url bs) ≡ some bs
unfolding from_base64_url
from-to_base64_url bs h =
    rw (to_base64_url_lem bs h, from-to_url (symbols bs) (symbols-IsSymbol bs h))
      (atob-pad_end bs h)

dotless : (s : Text) → All IsSymbol s → any (λ c. c == b'.') (map to_url s) ≡ false
dotless [] h = refl
dotless (c ∷ s) h = ground (arith, dotless s h.1)

-- An encoding has no dot.
pub to_base64_url_dotless :
    (bs : List ℕ) → All IsByte bs → any (λ c. c == b'.') (to_base64_url bs) ≡ false
to_base64_url_dotless bs h =
    rw (to_base64_url_lem bs h) (dotless (symbols bs) (symbols-IsSymbol bs h))

pub is_empty-to_base64_url :
    (bs : List ℕ) → All IsByte bs → is_empty (to_base64_url bs) ≡ is_empty bs
is_empty-to_base64_url [] h = rw (to_base64_url_lem [] h) refl
is_empty-to_base64_url (a ∷ []) h = rw (to_base64_url_lem (a ∷ []) h) refl
is_empty-to_base64_url (a ∷ b ∷ []) h = rw (to_base64_url_lem (a ∷ b ∷ []) h) refl
is_empty-to_base64_url (a ∷ b ∷ c ∷ rest) h = rw (to_base64_url_lem (a ∷ b ∷ c ∷ rest) h) refl
