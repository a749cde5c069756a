-- ===== src/Subject.antt =====
-- `normalizeSubject` of src/lib/email-parser.ts: the prefixes of replies are taken off.
pub mod Laws
pub mod Strips
use mailagents_email_runtime.Base.{
  zero, suc, ℕ, Option, none, some, List, [], ◌∷◌, ◌==◌, if◌then◌else◌, length,
}
use mailagents_email_runtime.Text.{Text, codes, is_space, lower, trim, to_lower_case}

-- What follows a prefix, in whatever case.
abbrev pub after_prefix : Text → Text → Option Text
after_prefix [] s = some s
after_prefix (a ∷ p) [] = none
after_prefix (a ∷ p) (b ∷ s) = let rest = after_prefix p s in if a == lower b then rest else none

-- `\s*`
abbrev pub skip_spaces : Text → Text
skip_spaces [] = []
skip_spaces (c ∷ s) = let rest = skip_spaces s in if is_space c then rest else c ∷ s

abbrev first_some : Option Text → Option Text → Option Text
first_some none other = other
first_some (some t) other = some t

-- `(re|fwd|fw):\s*` at the start
unfoldable pub after_reply_prefix : Text → Option Text
after_reply_prefix s =
    elim (first_some (after_prefix (codes "re:") s)
      (first_some (after_prefix (codes "fwd:") s) (after_prefix (codes "fw:") s))) [
        | none ↦ none
        | some rest ↦ some (skip_spaces rest)
      ]

-- `.replace(/^((re|fwd|fw):\s*)+/gi, "")`, each round on one unit of fuel
unfoldable pub strip_reply_prefixes : ℕ → Text → Text
unfolding after_reply_prefix
strip_reply_prefixes zero s = s
strip_reply_prefixes (suc n) s = elim (after_reply_prefix s) [
  | none ↦ s
  | some rest ↦ strip_reply_prefixes n rest
]

-- A round takes three characters at least, so that the length is enough fuel.
unfoldable pub normalize_subject : Text → Text
unfolding strip_reply_prefixes trim to_lower_case
normalize_subject subject = to_lower_case (trim (strip_reply_prefixes (length subject) subject))
