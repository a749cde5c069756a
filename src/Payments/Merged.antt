-- ===== src/Payments/Merged.antt =====
-- The properties of an object that others are merged into.
use Prim.Native.String.{String}
use text.Mathlib.Text.{◌==◌ as same_key}
use text.Mathlib.TextEquality.{eq_iff}
use mailagents_email_runtime.Base.{
  ◌≡◌, refl, sym, subst, true, false, Option, none, some, [], ◌∷◌, if◌then◌else◌, inl, inr,
  Bool-cases,
}
use mailagents_email_runtime.Json.{Json, Fields, end, field, property}
use mailagents_email_runtime.Payments.Stored.{
  Properties, remove_property, set_property, merge_properties,
}

same-equal : (k j : String) → same_key k j ≡ true → k ≡ j
same-equal k j h = (eq_iff k j).0 h

property-remove_other :
    (k j : String) (fs : Fields)
    → same_key k j ≡ false
    → property j (remove_property k fs) ≡ property j fs
unfolding remove_property
property-remove_other k j end h = refl
property-remove_other k j (field i v fs) h = elim (Bool-cases (same_key i k)) [
  | inl e ↦
      let other : same_key i j ≡ false =
        subst (λ x. same_key x j ≡ false) (sym (same-equal i k e)) h in
      rw (e, other) (property-remove_other k j fs h)
  | inr e ↦ rw (e, property-remove_other k j fs h) refl
]

property-remove_same : (k : String) (fs : Fields) → property k (remove_property k fs) ≡ none
unfolding remove_property
property-remove_same k end = refl
property-remove_same k (field i v fs) = elim (Bool-cases (same_key i k)) [
  | inl e ↦ rw e (property-remove_same k fs)
  | inr e ↦ rw (e, e) (property-remove_same k fs)
]

property-set_property :
    (k j : String) (v : Option Json) (fs : Fields)
    → property j (set_property k v fs) ≡ (if same_key k j then v else property j fs)
unfolding set_property
property-set_property k j none fs = elim (Bool-cases (same_key k j)) [
  | inl e ↦ rw e (
      subst (λ x. property x (remove_property k fs) ≡ none) (same-equal k j e)
        (property-remove_same k fs))
  | inr e ↦ rw e (property-remove_other k j fs e)
]
property-set_property k j (some v) fs = elim (Bool-cases (same_key k j)) [
  | inl e ↦ rw e refl
  | inr e ↦ rw e (property-remove_other k j fs e)
]

-- the value of the last property of its name
abbrev pub last_value : String → Properties → Option Json → Option Json
last_value j [] v = v
last_value j ((k, u) ∷ ps) v = if same_key k j then u else last_value j ps v

pub property-merge_properties :
    (j : String) (fs : Fields) (ps : Properties)
    → property j (merge_properties fs ps) ≡ last_value j ps (property j fs)
unfolding merge_properties
property-merge_properties j fs [] = refl
property-merge_properties j fs ((k, v) ∷ ps) =
    rw (property-set_property k j v (merge_properties fs ps), property-merge_properties j fs ps)
      refl
