-- ===== src/Subject/Laws.antt =====
-- The prefixes are all taken off.
use mailagents_email_runtime.Base.{
  zero, suc, ℕ, ◌+◌, ◌≤◌, ◌<◌, ◌≡◌, refl, none, some, [], ◌∷◌, length, arith, Option-cases, inl,
  inr,
}
use mailagents_email_runtime.Text.{Text, codes}
use mailagents_email_runtime.Subject.{
  after_prefix, skip_spaces, after_reply_prefix, strip_reply_prefixes,
}

length-after_prefix :
    (p s rest : Text) → after_prefix p s ≡ some rest → length rest + length p ≤ length s
length-after_prefix [] s rest h = ground arith
length-after_prefix (a ∷ p) [] rest h = cc
length-after_prefix (a ∷ p) (b ∷ s) rest h = ground (arith, length-after_prefix p s rest)

length-skip_spaces : (s : Text) → length (skip_spaces s) ≤ length s
length-skip_spaces [] = omega arith
length-skip_spaces (c ∷ s) = ground (arith, length-skip_spaces s)

pub length-after_reply_prefix :
    (s rest : Text) → after_reply_prefix s ≡ some rest → length rest < length s
unfolding after_reply_prefix
length-after_reply_prefix s rest h = grind (
  arith,
  length-after_prefix (codes "re:") s,
  length-after_prefix (codes "fwd:") s,
  length-after_prefix (codes "fw:") s,
  length-skip_spaces,
)

stripped : (n : ℕ) (s : Text) → length s ≤ n → after_reply_prefix (strip_reply_prefixes n s) ≡ none
unfolding strip_reply_prefixes
stripped zero [] h = unfold after_reply_prefix in refl
stripped zero (c ∷ s) h = absurd (omega arith)
stripped (suc n) s h = elim (Option-cases (after_reply_prefix s)) [
  | inl none_left ↦ rw none_left none_left
  | inr (rest, found) ↦
      rw found (stripped n rest (omega (arith, length-after_reply_prefix s rest found)))
]

-- With its length for fuel the loop ends with a subject that has no prefix of a reply left.
pub strip_reply_prefixes_ends :
    (s : Text) → after_reply_prefix (strip_reply_prefixes (length s) s) ≡ none
strip_reply_prefixes_ends s = stripped (length s) s (omega arith)
