-- ===== src/Json.antt =====
-- Parsed JSON, as `JSON.parse` gives it: draft payloads in R2 and the metadata columns of D1.
-- Numbers are integers; a missing property is `undefined`, here `none`.
use Prim.Native.String.{String}
use text.Mathlib.Text.{◌==◌ as same_key}
use mailagents_email_runtime.Base.{
  ◌≡◌, refl, ap, Bool, false, Option, none, some, List, [], ◌∷◌, if◌then◌else◌,
}
use mailagents_email_runtime.Base.Int.{ℤ}
use mailagents_email_runtime.Text.{Text, codes, text_eq}

mutual
  pub data Json : Type 0 where
    null : Json
    bool : Bool → Json
    num : ℤ → Json
    str : Text → Json
    arr : Items → Json
    obj : Fields → Json

  pub data Items : Type 0 where
    nil : Items
    cons : Json → Items → Items

  pub data Fields : Type 0 where
    end : Fields
    field : String → Json → Fields → Fields

-- `record[key]`
abbrev pub property : String → Fields → Option Json
property k end = none
property k (field j v fs) = if same_key j k then some v else property k fs

-- `value === "tag"`
abbrev pub is_text : Text → Option Json → Bool
is_text t (some (str s)) = text_eq s t
is_text t _ = false

abbrev pub is_tag : String → Option Json → Bool
is_tag tag v = is_text (codes tag) v

-- `typeof value === "string" ? value : undefined`
abbrev pub as_text : Option Json → Option Text
as_text (some (str s)) = some s
as_text _ = none

-- `typeof value === "number" ? value : undefined`
abbrev pub as_number : Option Json → Option ℤ
as_number (some (num n)) = some n
as_number _ = none

-- `Array.isArray(value) ? value : undefined`
abbrev pub as_array : Option Json → Option Items
as_array (some (arr xs)) = some xs
as_array _ = none

-- `items.filter((item) => typeof item === "string")`
abbrev pub text_items : Items → List Text
text_items nil = []
text_items (cons (str s) xs) = s ∷ text_items xs
text_items (cons _ xs) = text_items xs

abbrev pub from_texts : List Text → Items
from_texts [] = nil
from_texts (s ∷ ss) = cons (str s) (from_texts ss)

pub text_items-from_texts : (ss : List Text) → text_items (from_texts ss) ≡ ss
text_items-from_texts [] = refl
text_items-from_texts (s ∷ ss) = ap (λ r. s ∷ r) (text_items-from_texts ss)
