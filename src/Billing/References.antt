-- ===== src/Billing/References.antt =====
-- The ledger entries of a reference, counted.
use mailagents_email_runtime.Base.{ℕ, List, [], ◌∷◌, suc, if◌then◌else◌}
use mailagents_email_runtime.World.{LedgerEntry}
use mailagents_email_runtime.Billing.Ledger.{is_key}

-- How many entries carry the reference.
abbrev pub references : ℕ → List LedgerEntry → ℕ
references k [] = 0
references k (e ∷ es) =
    let rest = references k es in if is_key k e.reference_id then suc rest else rest
