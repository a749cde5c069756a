-- ===== src/Text/Trim.antt =====
-- A text that is trimmed stays as it is when it is trimmed again.
use mathlib.Core.List.{reverse, reverse-cons, reverse-reverse}
use mailagents_email_runtime.Base.{
  ◌≡◌, refl, sym, ap, subst, ◌∙◌, Bool, true, not, [], ◌∷◌, ◌++◌, inl, inr, Bool-cases,
}
use mailagents_email_runtime.Text.{Text, is_space, trim_start, trim}

-- A text that begins with no white space.
starts_plain : Text → Bool
starts_plain [] = true
starts_plain (c ∷ s) = not (is_space c)

trim_start-plain : (s : Text) → starts_plain (trim_start s) ≡ true
unfolding starts_plain
trim_start-plain [] = refl
trim_start-plain (c ∷ s) = elim (Bool-cases (is_space c)) [
  | inl e ↦ rw e (trim_start-plain s)
  | inr e ↦ rw (e, e) refl
]

trim_start_of : (s : Text) → starts_plain s ≡ true → trim_start s ≡ s
unfolding starts_plain
trim_start_of [] h = refl
trim_start_of (c ∷ s) h = elim (Bool-cases (is_space c)) [ inl e ↦ cc | inr e ↦ rw e refl ]

starts_plain-append : (s t : Text) → starts_plain (s ++ t) ≡ true → starts_plain s ≡ true
unfolding starts_plain
starts_plain-append [] t h = refl
starts_plain-append (c ∷ s) t h = h

-- The white space that is taken from the end leaves the beginning as it is.
starts_plain-trim_end :
    (s : Text) → starts_plain (reverse s) ≡ true → starts_plain (reverse (trim_start s)) ≡ true
starts_plain-trim_end [] h = h
starts_plain-trim_end (c ∷ s) h = elim (Bool-cases (is_space c)) [
  | inl e ↦ rw e (
      starts_plain-trim_end s (
        starts_plain-append (reverse s) (c ∷ [])
          (subst (λ x. starts_plain x ≡ true) (reverse-cons c s) h)))
  | inr e ↦ rw e h
]

pub trim-trim : (s : Text) → trim (trim s) ≡ trim s
unfolding trim
trim-trim s =
    let a : Text = trim_start s in
    let b : Text = trim_start (reverse a) in
    let plain : starts_plain (reverse (reverse a)) ≡ true =
      subst (λ x. starts_plain x ≡ true) (sym (reverse-reverse a)) (trim_start-plain s) in
    ap (λ x. reverse (trim_start (reverse x)))
      (trim_start_of (reverse b) (starts_plain-trim_end (reverse a) plain))
    ∙ ap (λ x. reverse (trim_start x)) (reverse-reverse b)
    ∙ ap reverse (trim_start_of b (trim_start-plain (reverse a)))
