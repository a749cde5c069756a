-- ===== src/Idempotency/Reserve.antt =====
-- What a reservation answers, alone, in a race and after the request completed.
use mailagents_email_runtime.Base.{
  ℕ, ◌≡◌, ◌≢◌, refl, false, Option, none, some, List, [], ◌∷◌, arith, any, find,
}
use mailagents_email_runtime.Json.{Json}
use mailagents_email_runtime.World.{
  World, IdempotencyRow, pending, completed, Result, ok, err, Done,
}
use mailagents_email_runtime.World.Tables.{update_rows}
use mailagents_email_runtime.Idempotency.{
  IdempotencyKey, ReserveInput, Reservation, reserved, already_completed, still_pending, conflict,
  keys, has_key, has_pending_key, pending_row, reserve_absent, reserve_idempotency_key,
  complete_idempotency_key, complete_row,
}

-- What a reservation that began in `w` has done, by how it ended.
abbrev pub Reserves : ReserveInput → World → Result Reservation × World → Type 0
Reserves input w (ok reserved, v) =
    (find (has_key input.key) (keys w) ≡ none) × (keys v ≡ pending_row input w.now ∷ keys w)
Reserves input w (ok (already_completed r), v) =
    (find (has_key input.key) (keys w) ≡ some r)
    × (r.request_fingerprint ≡ input.request_fingerprint)
    × (r.status ≡ completed)
    × (keys v ≡ keys w)
Reserves input w (ok (still_pending r), v) =
    (find (has_key input.key) (keys w) ≡ some r)
    × (r.request_fingerprint ≡ input.request_fingerprint)
    × (r.status ≡ pending)
    × (keys v ≡ keys w)
Reserves input w (ok (conflict r), v) =
    (find (has_key input.key) (keys w) ≡ some r)
    × (r.request_fingerprint ≢ input.request_fingerprint)
    × (keys v ≡ keys w)
Reserves input w (err _, v) = keys v ≡ keys w

any-find :
    (k : IdempotencyKey) (rows : List IdempotencyRow)
    → find (has_key k) rows ≡ none
    → any (has_key k) rows ≡ false
any-find k [] h = refl
any-find k (r ∷ rows) h = ground (arith, any-find k rows)

-- A reservation inserts a pending row exactly where the key has none; otherwise it answers from the
-- row, a conflict where the fingerprints differ, and changes nothing, as it does where it throws.
pub reserve_lem :
    (input : ReserveInput) (w : World) → Reserves input w (reserve_idempotency_key input w)
unfolding reserve_idempotency_key
reserve_lem input w = ground (arith, any-find input.key (keys w))

-- the answers of two requests with the same key that both found no row
abbrev pub Excludes : Result Reservation × World → Result Reservation × World → Type 0
Excludes (ok reserved, v) (x, u) = (x ≢ ok reserved) × (keys u ≡ keys v)
Excludes (_, v) (x, u) = Unit

-- Of two requests that raced for a key, both past the look-up, the second is not given the
-- reservation that the first was given, and leaves the table alone.
pub reserve_absent-Excludes :
    (input other : ReserveInput) (w : World)
    → other.key ≡ input.key
    → Excludes (reserve_absent input w) (reserve_absent other (reserve_absent input w).1)
unfolding reserve_absent
reserve_absent-Excludes input other w h = ground arith

-- what a repeat of the request is answered
abbrev pub IsReplay : Json → Result Reservation → Type 0
IsReplay response (ok (already_completed r)) = r.response ≡ some response
IsReplay response (ok _) = ⊥
IsReplay response (err _) = Unit

abbrev pub Replays : Json → ReserveInput → Result Done × World → Type 0
Replays response input (ok _, v) = IsReplay response (reserve_idempotency_key input v).0
Replays response input (err _, v) = Unit

find_completed :
    (k : IdempotencyKey) (response : Json) (resource : Option ℕ) (now : ℕ) (r : IdempotencyRow)
    (rows : List IdempotencyRow)
    → find (has_key k) rows ≡ some r
    → r.status ≡ pending
    → find (has_key k) (update_rows (has_pending_key k) (complete_row response resource now) rows)
      ≡ some (complete_row response resource now r)
find_completed k response resource now r [] h p = cc
find_completed k response resource now r (x ∷ rows) h p =
    ground (arith, find_completed k response resource now r rows)

-- Once a pending request is completed, a repeat of it with the same fingerprint that is answered
-- is given the response that was stored.
pub complete-Replays :
    (input : ReserveInput) (response : Json) (resource : Option ℕ) (r : IdempotencyRow) (w : World)
    → find (has_key input.key) (keys w) ≡ some r
    → r.status ≡ pending
    → r.request_fingerprint ≡ input.request_fingerprint
    → Replays response input (complete_idempotency_key input.key response resource w)
unfolding complete_idempotency_key reserve_idempotency_key
complete-Replays input response resource r w found p same =
    ground (arith, find_completed input.key response resource w.now r (keys w) found p)
