-- ===== src/Idempotency.antt =====
-- The table `idempotency_keys` of src/repositories/mail.ts: a request reserves its key, and a repeat
-- of it is answered from the row. The primary key of the table is operation, tenant and key.
pub mod Reserve
pub mod Keep
pub mod Prune
use mailagents_email_runtime.Base.{
  ℕ, Bool, true, false, ◌&&◌, ◌||◌, not, Option, none, some, List, [], ◌∷◌, ◌==◌, ◌-◌, ltb,
  if◌then◌else◌, any, find, length,
}
use mailagents_email_runtime.Json.{Json}
use mailagents_email_runtime.World.{
  World, IdempotencyRow, IdempotencyStatus, pending, completed, Action, Done, plain, ◌>>=◌, ◌>>◌,
  pure, gets, throw_if, require_row, service,
}
use mailagents_email_runtime.World.Tables.{update_rows, delete_rows}

pub record IdempotencyKey : Type 0 where
  pub operation : ℕ
  pub tenant_id : ℕ
  pub idempotency_key : ℕ

pub record ReserveInput : Type 0 where
  pub key : IdempotencyKey
  pub request_fingerprint : ℕ
  pub resource_id : Option ℕ

-- the answer of a reservation
pub data Reservation : Type 0 where
  reserved : Reservation
  already_completed : IdempotencyRow → Reservation
  still_pending : IdempotencyRow → Reservation
  conflict : IdempotencyRow → Reservation

abbrev pub keys : World → List IdempotencyRow
keys w = w.idempotency

abbrev pub set_keys : List IdempotencyRow → World → World
set_keys rows w = record w { idempotency = rows }

-- `WHERE operation = ? AND tenant_id = ? AND idempotency_key = ?`
abbrev pub has_key : IdempotencyKey → IdempotencyRow → Bool
has_key k r =
    r.operation == k.operation
    && (r.tenant_id == k.tenant_id && r.idempotency_key == k.idempotency_key)

abbrev pub is_pending : IdempotencyStatus → Bool
is_pending pending = true
is_pending completed = false

abbrev pub has_pending_key : IdempotencyKey → IdempotencyRow → Bool
has_pending_key k r = has_key k r && is_pending r.status

unfoldable pub get_idempotency_record : IdempotencyKey → Action (Option IdempotencyRow)
unfolding service
get_idempotency_record k = service >> gets (λ w. find (has_key k) (keys w))

-- what the code answers for a row that it found
unfoldable pub reservation_of : ℕ → IdempotencyRow → Reservation
reservation_of fingerprint r =
    if not (r.request_fingerprint == fingerprint)
    then conflict r
    else (if is_pending r.status then still_pending r else already_completed r)

abbrev pub pending_row : ReserveInput → ℕ → IdempotencyRow
pending_row input now = record {
  operation = input.key.operation;
  tenant_id = input.key.tenant_id;
  idempotency_key = input.key.idempotency_key;
  request_fingerprint = input.request_fingerprint;
  status = pending;
  resource_id = input.resource_id;
  response = none;
  created_at = now;
  updated_at = now;
}

-- `INSERT OR IGNORE`; tells whether the row was inserted
unfoldable pub insert_pending : ReserveInput → Action Bool
unfolding service
insert_pending input = service >> λ w.
    if any (has_key input.key) (keys w)
    then pure false w
    else pure true (set_keys (pending_row input w.now ∷ keys w) w)

-- The reservation where the first look-up found no row: other requests may have run since then.
unfoldable pub reserve_absent : ReserveInput → Action Reservation
unfolding insert_pending get_idempotency_record reservation_of
reserve_absent input = do
  inserted ← insert_pending input
  if inserted then pure reserved else (do
    found ← get_idempotency_record input.key
    current ← require_row found
    pure (reservation_of input.request_fingerprint current))

unfoldable pub reserve_found : ReserveInput → Option IdempotencyRow → Action Reservation
unfolding reserve_absent reservation_of
reserve_found input none = reserve_absent input
reserve_found input (some existing) = pure (reservation_of input.request_fingerprint existing)

unfoldable pub reserve_idempotency_key : ReserveInput → Action Reservation
unfolding get_idempotency_record reserve_found
reserve_idempotency_key input = get_idempotency_record input.key >>= reserve_found input

-- `COALESCE(?, column)`
abbrev pub coalesce : Option ℕ → Option ℕ → Option ℕ
coalesce none old = old
coalesce (some new) old = some new

abbrev pub complete_row : Json → Option ℕ → ℕ → IdempotencyRow → IdempotencyRow
complete_row response resource now r = record r {
  status = completed;
  response = some response;
  resource_id = coalesce resource r.resource_id;
  updated_at = now;
}

-- An `UPDATE` of the pending row of the key, which throws where there is none.
abbrev pub update_pending : IdempotencyKey → (ℕ → IdempotencyRow → IdempotencyRow) → Action Done
unfolding service
update_pending k f = do
  service
  changed ← (λ w.
      pure (any (has_pending_key k) (keys w))
        (set_keys (update_rows (has_pending_key k) (f w.now) (keys w)) w))
  throw_if (not changed) plain

unfoldable pub complete_idempotency_key : IdempotencyKey → Json → Option ℕ → Action Done
unfolding service
complete_idempotency_key k response resource = update_pending k (complete_row response resource)

abbrev pub resource_row : ℕ → ℕ → IdempotencyRow → IdempotencyRow
resource_row resource now r = record r { resource_id = some resource; updated_at = now }

unfoldable pub update_idempotency_key_resource : IdempotencyKey → ℕ → Action Done
unfolding service
update_idempotency_key_resource k resource = update_pending k (resource_row resource)

unfoldable pub release_idempotency_key : IdempotencyKey → Action Done
unfolding service
release_idempotency_key k =
    service >> λ w. pure tt (set_keys (delete_rows (has_pending_key k) (keys w)) w)

-- `(status = 'completed' AND updated_at < ?) OR (status = 'pending' AND updated_at < ?)`
abbrev pub is_stale : ℕ → ℕ → IdempotencyRow → Bool
is_stale completed_before pending_before r = elim (r.status) [
  | completed ↦ ltb r.updated_at completed_before
  | pending ↦ ltb r.updated_at pending_before
]

-- Answers with the number of rows deleted.
unfoldable pub prune_idempotency_keys : ℕ → ℕ → Action ℕ
unfolding service
prune_idempotency_keys completed_before pending_before = service >> λ w.
    let kept = delete_rows (is_stale completed_before pending_before) (keys w) in
    pure (length (keys w) - length kept) (set_keys kept w)
