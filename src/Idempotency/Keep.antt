-- ===== src/Idempotency/Keep.antt =====
-- A completed row stays as it is.
use mailagents_email_runtime.Base.{
  ℕ, ◌≡◌, true, false, Option, some, List, [], ◌∷◌, arith, any, find,
}
use mailagents_email_runtime.Json.{Json}
use mailagents_email_runtime.World.{World, IdempotencyRow, completed}
use mailagents_email_runtime.World.Tables.{update_rows, delete_rows}
use mailagents_email_runtime.Idempotency.{
  IdempotencyKey, ReserveInput, keys, has_key, has_pending_key, pending_row,
  reserve_idempotency_key, complete_idempotency_key, update_idempotency_key_resource,
  release_idempotency_key, complete_row, resource_row,
}

-- the operations on a key, as a request chooses among them
pub data KeyOp : Type 0 where
  reserve : ReserveInput → KeyOp
  complete : IdempotencyKey → Json → Option ℕ → KeyOp
  update_resource : IdempotencyKey → ℕ → KeyOp
  release : IdempotencyKey → KeyOp

abbrev pub after_op : KeyOp → World → World
after_op (reserve input) w = (reserve_idempotency_key input w).1
after_op (complete k response resource) w = (complete_idempotency_key k response resource w).1
after_op (update_resource k resource) w = (update_idempotency_key_resource k resource w).1
after_op (release k) w = (release_idempotency_key k w).1

-- the completed row of a key
abbrev pub Holds : IdempotencyKey → IdempotencyRow → List IdempotencyRow → Type 0
Holds k r rows = (find (has_key k) rows ≡ some r) × (r.status ≡ completed)

module _ (k j : IdempotencyKey) (r : IdempotencyRow) where
  complete-Holds :
      (response : Json) (resource : Option ℕ) (now : ℕ) (rows : List IdempotencyRow)
      → Holds k r rows
      → Holds k r (update_rows (has_pending_key j) (complete_row response resource now) rows)
  complete-Holds response resource now [] h = h
  complete-Holds response resource now (x ∷ rows) h =
      ground (arith, complete-Holds response resource now rows)

  resource-Holds :
      (resource now : ℕ) (rows : List IdempotencyRow)
      → Holds k r rows
      → Holds k r (update_rows (has_pending_key j) (resource_row resource now) rows)
  resource-Holds resource now [] h = h
  resource-Holds resource now (x ∷ rows) h = ground (arith, resource-Holds resource now rows)

  release-Holds :
      (rows : List IdempotencyRow)
      → Holds k r rows
      → Holds k r (delete_rows (has_pending_key j) rows)
  release-Holds [] h = h
  release-Holds (x ∷ rows) h = ground (arith, release-Holds rows)

no_clash :
    (input : ReserveInput) (k : IdempotencyKey) (r : IdempotencyRow) (now : ℕ)
    (rows : List IdempotencyRow)
    → any (has_key input.key) rows ≡ false
    → has_key k (pending_row input now) ≡ true
    → find (has_key k) rows ≡ some r
    → ⊥
no_clash input k r now [] h e f = cc
no_clash input k r now (x ∷ rows) h e f = ground (arith, no_clash input k r now rows)

-- The row of a completed key, with its response, stays as it is whatever the requests do that
-- reserve, complete, update or release this key or another.
pub key_op-Holds :
    (op : KeyOp) (k : IdempotencyKey) (r : IdempotencyRow) (w : World)
    → Holds k r (keys w)
    → Holds k r (keys (after_op op w))
unfolding reserve_idempotency_key complete_idempotency_key update_idempotency_key_resource
    release_idempotency_key
key_op-Holds (reserve input) k r w h = ground (arith, no_clash input k r w.now (keys w))
key_op-Holds (complete j response resource) k r w h =
    ground (arith, complete-Holds k j r response resource w.now (keys w))
key_op-Holds (update_resource j resource) k r w h =
    ground (arith, resource-Holds k j r resource w.now (keys w))
key_op-Holds (release j) k r w h = ground (arith, release-Holds k j r (keys w))
