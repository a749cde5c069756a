-- ===== src/World/Tables.antt =====
-- SQL statements on the tables.
use mailagents_email_runtime.Base.{ℕ, Bool, Option, some, List, [], ◌∷◌, ◌==◌, if◌then◌else◌}

-- A table with a primary key, and a write of one row.
abbrev pub put {ℓ} : {A : Type ℓ} → ℕ → A → (ℕ → Option A) → ℕ → Option A
put k a t j = if j == k then some a else t j

module _ {ℓ} {A : Type ℓ} (p : A → Bool) (f : A → A) where
  -- `UPDATE … SET f WHERE p`; the rows changed are those that `any p` finds.
  abbrev pub update_rows : List A → List A
  update_rows [] = []
  update_rows (x ∷ xs) = (if p x then f x else x) ∷ update_rows xs

-- `DELETE … WHERE p`
abbrev pub delete_rows {ℓ} : {A : Type ℓ} → (A → Bool) → List A → List A
delete_rows p [] = []
delete_rows p (x ∷ xs) = let rest = delete_rows p xs in if p x then rest else x ∷ rest
