-- ===== src/Tests/Requests.antt =====
-- Idempotency keys.
use mailagents_email_runtime.Base.{refl, none, some, [], ◌∷◌}
use mailagents_email_runtime.Json.{num}
use mailagents_email_runtime.Base.Int.{pos}
use mailagents_email_runtime.World.{World, IdempotencyRow}
use mailagents_email_runtime.Idempotency.{
  IdempotencyKey, ReserveInput, keys, pending_row, complete_row, reserve_idempotency_key,
  reserve_absent, complete_idempotency_key, prune_idempotency_keys,
}
use mailagents_email_runtime.Idempotency.Reserve.{
  Reserves, reserve_lem, Excludes, reserve_absent-Excludes, Replays, complete-Replays,
}
use mailagents_email_runtime.Idempotency.Keep.{KeyOp, Holds, key_op-Holds, after_op}
use mailagents_email_runtime.Idempotency.Prune.{Prunes, prune-Prunes}
use mailagents_email_runtime.Tests.{world}

abbrev key : IdempotencyKey
key = record { operation = 1; tenant_id = 1; idempotency_key = 77 }

abbrev input : ReserveInput
input = record { key = key; request_fingerprint = 5; resource_id = none }

abbrev other_input : ReserveInput
other_input = record { key = key; request_fingerprint = 6; resource_id = none }

abbrev reserved_world : World
reserved_world = record world { idempotency = pending_row input 7 ∷ [] }

abbrev completed_row : IdempotencyRow
completed_row = complete_row (num (pos 4)) (some 9) 8 (pending_row input 7)

abbrev completed_world : World
completed_world = record world { idempotency = completed_row ∷ [] }

reserve_lem_example : Reserves input world (reserve_idempotency_key input world)
reserve_lem_example = reserve_lem input world

reserve_absent-Excludes_example :
    Excludes
      (reserve_absent input world)
      (reserve_absent other_input (reserve_absent input world).1)
reserve_absent-Excludes_example = reserve_absent-Excludes input other_input world refl

complete-Replays_example :
    Replays (num (pos 4)) input (complete_idempotency_key key (num (pos 4)) (some 9) reserved_world)
complete-Replays_example =
    complete-Replays input (num (pos 4)) (some 9) (pending_row input 7) reserved_world refl refl
      refl

key_op-Holds_example :
    Holds key completed_row (keys (after_op (KeyOp.reserve other_input) completed_world))
key_op-Holds_example =
    key_op-Holds (KeyOp.reserve other_input) key completed_row completed_world (refl, refl)

prune-Prunes_example : Prunes 9 5 completed_world (prune_idempotency_keys 9 5 completed_world)
prune-Prunes_example = prune-Prunes 9 5 completed_world
