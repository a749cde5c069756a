-- ===== src/Idempotency/Prune.antt =====
-- What a prune deletes and what it keeps.
use mailagents_email_runtime.Base.{
  ℕ, zero, suc, ◌≡◌, ◌<◌, ◌-◌, ◌⊎◌, inl, inr, refl, subst, Bool, true, false, Bool-cases, some,
  List, [], ◌∷◌, arith, find, length, ◌+◌,
}
use mailagents_email_runtime.World.{World, IdempotencyRow, IdempotencyStatus, Result, ok, err}
use mailagents_email_runtime.World.Tables.{delete_rows}
use mailagents_email_runtime.Idempotency.{
  IdempotencyKey, keys, has_key, prune_idempotency_keys, is_stale,
}

module _ (stale : IdempotencyRow → Bool) where
  find-delete_rows :
      (k : IdempotencyKey) (r : IdempotencyRow) (rows : List IdempotencyRow)
      → find (has_key k) rows ≡ some r
      → stale r ≡ false
      → find (has_key k) (delete_rows stale rows) ≡ some r
  find-delete_rows k r [] h f = cc
  find-delete_rows k r (x ∷ rows) h f = ground (arith, find-delete_rows k r rows)

-- A completed row that was written before the one time, or a pending one before the other.
abbrev pub IsOld : ℕ → ℕ → IdempotencyRow → Type 0
IsOld completed_before pending_before r =
    ((r.status ≡ IdempotencyStatus.completed) × (r.updated_at < completed_before))
    ⊎ ((r.status ≡ IdempotencyStatus.pending) × (r.updated_at < pending_before))

-- The rows of a table and what is left of them, with the number of those deleted.
pub data Pruned (completed_before pending_before : ℕ)
    : List IdempotencyRow → List IdempotencyRow → ℕ → Type 0 where
  no_rows : Pruned completed_before pending_before [] [] zero
  deleted :
      {r : IdempotencyRow} {rows left : List IdempotencyRow} {n : ℕ}
      → IsOld completed_before pending_before r
      → Pruned completed_before pending_before rows left n
      → Pruned completed_before pending_before (r ∷ rows) left (suc n)
  kept :
      {r : IdempotencyRow} {rows left : List IdempotencyRow} {n : ℕ}
      → ¬ IsOld completed_before pending_before r
      → Pruned completed_before pending_before rows left n
      → Pruned completed_before pending_before (r ∷ rows) (r ∷ left) n

-- What a prune that began in `w` has done.
abbrev pub Prunes : ℕ → ℕ → World → Result ℕ × World → Type 0
Prunes completed_before pending_before w (ok n, v) =
    Pruned completed_before pending_before (keys w) (keys v) n
Prunes completed_before pending_before w (err _, v) = keys v ≡ keys w

module _ (completed_before pending_before : ℕ) where
  status-cases :
      (s : IdempotencyStatus) → (s ≡ IdempotencyStatus.completed) ⊎ (s ≡ IdempotencyStatus.pending)
  status-cases IdempotencyStatus.completed = inl refl
  status-cases IdempotencyStatus.pending = inr refl

  stale-IsOld :
      (r : IdempotencyRow)
      → is_stale completed_before pending_before r ≡ true
      → IsOld completed_before pending_before r
  stale-IsOld r h = elim (status-cases r.status) [
    | inl e ↦ inl (e, ground arith)
    | inr e ↦ inr (e, ground arith)
  ]

  fresh-ne-IsOld :
      (r : IdempotencyRow)
      → is_stale completed_before pending_before r ≡ false
      → ¬ IsOld completed_before pending_before r
  fresh-ne-IsOld r h (inl (e, old)) = ground arith
  fresh-ne-IsOld r h (inr (e, old)) = ground arith

  abbrev left_of : List IdempotencyRow → List IdempotencyRow
  left_of = delete_rows (is_stale completed_before pending_before)

  delete_rows-Pruned :
      (rows : List IdempotencyRow)
      → (n : ℕ) × (n + length (left_of rows) ≡ length rows)
        × Pruned completed_before pending_before rows (left_of rows) n
  delete_rows-Pruned [] = (zero, refl, no_rows)
  delete_rows-Pruned (r ∷ rows) =
      let (n, counted, pruned) = delete_rows-Pruned rows in
      elim (Bool-cases (is_stale completed_before pending_before r)) [
        | inl e ↦ rw e (suc n, omega arith, deleted (stale-IsOld r e) pruned)
        | inr e ↦ rw e (n, omega arith, kept (fresh-ne-IsOld r e) pruned)
      ]

  counted-Pruned :
      (rows : List IdempotencyRow)
      → Pruned completed_before pending_before rows
          (left_of rows)
          (length rows - length (left_of rows))
  counted-Pruned rows =
      let (n, counted, pruned) = delete_rows-Pruned rows in
      let same : n ≡ length rows - length (left_of rows) = omega arith in
      subst (λ k. Pruned completed_before pending_before rows (left_of rows) k) same pruned

-- A prune that returns has deleted the completed rows last written before the one time and the
-- pending rows before the other, has kept every other row as it was and in its place, and answers
-- with the number deleted; one that throws has deleted nothing.
pub prune-Prunes :
    (completed_before pending_before : ℕ) (w : World)
    → Prunes completed_before pending_before w
        (prune_idempotency_keys completed_before pending_before w)
unfolding prune_idempotency_keys
prune-Prunes completed_before pending_before w =
    ground (arith, counted-Pruned completed_before pending_before (keys w))

-- A prune keeps the row of a key that is not older than the time of its status.
pub prune-find :
    (completed_before pending_before : ℕ) (k : IdempotencyKey) (r : IdempotencyRow) (w : World)
    → find (has_key k) (keys w) ≡ some r
    → is_stale completed_before pending_before r ≡ false
    → find (has_key k) (keys (prune_idempotency_keys completed_before pending_before w).1) ≡ some r
unfolding prune_idempotency_keys
prune-find completed_before pending_before k r w h fresh =
    ground (arith, find-delete_rows (is_stale completed_before pending_before) k r (keys w))
