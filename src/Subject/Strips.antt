-- ===== src/Subject/Strips.antt =====
-- Which text the removal of the prefixes leaves, said without the functions of the code.
use mailagents_email_runtime.Base.{
  zero, suc, ℕ, ◌≤◌, ◌≡◌, ◌⊎◌, refl, sym, ap, subst, ◌∙◌, true, false, none, some, [], ◌∷◌, ◌++◌,
  length, map, All, arith, Option-cases, Bool-cases, inl, inr,
}
use mailagents_email_runtime.Text.{Text, codes, is_space, lower}
use mailagents_email_runtime.Subject.{
  after_prefix, skip_spaces, after_reply_prefix, strip_reply_prefixes,
}
use mailagents_email_runtime.Subject.Laws.{length-after_reply_prefix}

-- "re:", "fwd:" or "fw:", in whatever case
abbrev pub IsReplyPrefix : Text → Type 0
IsReplyPrefix p =
    (map lower p ≡ codes "re:") ⊎ (map lower p ≡ codes "fwd:") ⊎ (map lower p ≡ codes "fw:")

-- The text begins with such a prefix.
abbrev pub IsReply : Text → Type 0
IsReply s = (p : Text) × (rest : Text) × (s ≡ p ++ rest) × IsReplyPrefix p

abbrev pub IsSpaces : Text → Type 0
IsSpaces = All (λ c. is_space c ≡ true)

-- The text does not begin with white space.
abbrev pub IsFlush : Text → Type 0
IsFlush [] = Unit
IsFlush (c ∷ s) = is_space c ≡ false

-- A subject and what is left of it: prefixes are taken off, each with all the white space after it,
-- until none is there.
pub data Strips : Text → Text → Type 0 where
  bare : {s : Text} → ¬ IsReply s → Strips s s
  round :
      {s left : Text} (p spaces rest : Text)
      → s ≡ p ++ (spaces ++ rest)
      → IsReplyPrefix p
      → IsSpaces spaces
      → IsFlush rest
      → Strips rest left
      → Strips s left

after_prefix-some :
    (q s rest : Text)
    → after_prefix q s ≡ some rest
    → (p : Text) × (s ≡ p ++ rest) × (map lower p ≡ q)
after_prefix-some [] s rest h = ([], ground arith, refl)
after_prefix-some (a ∷ q) [] rest h = cc
after_prefix-some (a ∷ q) (b ∷ s) rest h =
    let (p, e, l) = after_prefix-some q s rest (ground arith) in
    (b ∷ p, ap (λ x. b ∷ x) e, ground (arith, l))

after_prefix-none : (q p rest : Text) → map lower p ≡ q → after_prefix q (p ++ rest) ≡ some rest
after_prefix-none [] [] rest h = refl
after_prefix-none [] (b ∷ p) rest h = cc
after_prefix-none (a ∷ q) [] rest h = cc
after_prefix-none (a ∷ q) (b ∷ p) rest h = ground (arith, after_prefix-none q p rest (cc h))

skip_spaces-split :
    (s : Text)
    → (spaces : Text) × (s ≡ spaces ++ skip_spaces s) × IsSpaces spaces × IsFlush (skip_spaces s)
skip_spaces-split [] = ([], refl, tt, tt)
skip_spaces-split (c ∷ s) =
    let (spaces, e, all_spaces, flush) = skip_spaces-split s in
    elim (Bool-cases (is_space c)) [
      | inl b ↦ rw b (c ∷ spaces, ap (λ x. c ∷ x) e, (b, all_spaces), flush)
      | inr b ↦ rw b ([], refl, tt, b)
    ]

-- A prefix that the code finds.
module _ (s : Text) where
  found-prefix :
      (q rest : Text)
      → ((p : Text) → map lower p ≡ q → IsReplyPrefix p)
      → after_prefix q s ≡ some rest
      → (p : Text) × (spaces : Text) × (s ≡ p ++ (spaces ++ skip_spaces rest))
        × IsReplyPrefix p
        × IsSpaces spaces
        × IsFlush (skip_spaces rest)
  found-prefix q rest is_prefix h =
      let (p, e, l) = after_prefix-some q s rest h in
      let (spaces, split, all_spaces, flush) = skip_spaces-split rest in
      (p, spaces, e ∙ ap (λ x. p ++ x) split, is_prefix p l, all_spaces, flush)

  after_reply_prefix-some :
      (rest : Text)
      → after_reply_prefix s ≡ some rest
      → (p : Text) × (spaces : Text) × (s ≡ p ++ (spaces ++ rest))
        × IsReplyPrefix p
        × IsSpaces spaces
        × IsFlush rest
  unfolding after_reply_prefix
  after_reply_prefix-some rest h = elim (Option-cases (after_prefix (codes "re:") s)) [
    | inr (x, e) ↦
        let same : skip_spaces x ≡ rest = ground (arith, e) in
        rw (← same) (found-prefix (codes "re:") x (λ p l. inl l) e)
    | inl no_re ↦ elim (Option-cases (after_prefix (codes "fwd:") s)) [
      | inr (x, e) ↦
          let same : skip_spaces x ≡ rest = ground (arith, e, no_re) in
          rw (← same) (found-prefix (codes "fwd:") x (λ p l. inr (inl l)) e)
      | inl no_fwd ↦ elim (Option-cases (after_prefix (codes "fw:") s)) [
        | inr (x, e) ↦
            let same : skip_spaces x ≡ rest = ground (arith, e, no_re, no_fwd) in
            rw (← same) (found-prefix (codes "fw:") x (λ p l. inr (inr l)) e)
        | inl no_fw ↦ ground (arith, no_re, no_fwd, no_fw)
      ]
    ]
  ]

  after_reply_prefix-none : after_reply_prefix s ≡ none → ¬ IsReply s
  unfolding after_reply_prefix
  after_reply_prefix-none h (p, rest, e, inl l) =
      let f : after_prefix (codes "re:") s ≡ some rest =
        subst (λ x. after_prefix (codes "re:") x ≡ some rest) (sym e)
          (after_prefix-none (codes "re:") p rest l) in
      ground (arith, f, h)
  after_reply_prefix-none h (p, rest, e, inr (inl l)) =
      let f : after_prefix (codes "fwd:") s ≡ some rest =
        subst (λ x. after_prefix (codes "fwd:") x ≡ some rest) (sym e)
          (after_prefix-none (codes "fwd:") p rest l) in
      ground (arith, f, h)
  after_reply_prefix-none h (p, rest, e, inr (inr l)) =
      let f : after_prefix (codes "fw:") s ≡ some rest =
        subst (λ x. after_prefix (codes "fw:") x ≡ some rest) (sym e)
          (after_prefix-none (codes "fw:") p rest l) in
      ground (arith, f, h)

strip-Strips : (n : ℕ) (s : Text) → length s ≤ n → Strips s (strip_reply_prefixes n s)
unfolding strip_reply_prefixes
strip-Strips zero [] h = bare (after_reply_prefix-none [] (unfold after_reply_prefix in refl))
strip-Strips zero (c ∷ s) h = absurd (omega arith)
strip-Strips (suc n) s h = elim (Option-cases (after_reply_prefix s)) [
  | inl e ↦ rw e (bare (after_reply_prefix-none s e))
  | inr (rest, e) ↦
      let (p, spaces, split, is_prefix, all_spaces, flush) = after_reply_prefix-some s rest e in
      rw e (
        round p spaces rest split is_prefix all_spaces flush
          (strip-Strips n rest (omega (arith, length-after_reply_prefix s rest e))))
]

-- With its length for fuel the loop ends, and has taken off a subject every "re:", "fwd:" and "fw:"
-- that stands first, in whatever case, with all the white space after each, and nothing else.
pub strip_reply_prefixes-Strips : (s : Text) → Strips s (strip_reply_prefixes (length s) s)
strip_reply_prefixes-Strips s = strip-Strips (length s) s (omega arith)
