-- ===== src/Tests/Accounts.antt =====
-- Accounts, the ledger, and what a ledger entry records.
use mailagents_email_runtime.Base.{◌≡◌, refl, none, some, [], ◌∷◌, arith}
use mailagents_email_runtime.Base.Int.{pos, ◌+ℤ◌, ◌-ℤ◌, neg}
use mailagents_email_runtime.Text.{codes}
use mailagents_email_runtime.World.{CreditLedgerEntryType, BillingAccount, Result, ok, World}
use mailagents_email_runtime.LedgerMetadata.{
  outbound_usage, OutboundUsage, Debit, UsageType, parse_typed_credit_ledger_entry,
  serialize_credit_ledger_metadata,
}
use mailagents_email_runtime.LedgerMetadata.Laws.{parse-serialize}
use mailagents_email_runtime.Billing.{
  accounts, ledger, with_credits, reserve_tenant_available_credits, release_tenant_reserved_credits,
  reconcile_tenant_available_credits, append_typed_entry, anything, outbound_usage_entry, NewEntry,
  entry_row, TypedEntry,
}
use mailagents_email_runtime.Billing.Laws.{
  IsBalanced, IsSolvent, Reserves, reserve-IsBalanced, reserve-Reserves, CreditOp, run_credit_op,
  credit_op-IsSolvent, release-reserve, reconcile-IsBalanced,
}
use mailagents_email_runtime.Tests.{world, failing_at, account}

-- the reload after the statement fails
reserve-Reserves_example :
    Reserves 1 (pos 4) (failing_at 1) (reserve_tenant_available_credits 1 (pos 4) (failing_at 1))
reserve-Reserves_example = reserve-Reserves 1 (pos 4) (failing_at 1)

reserve-IsBalanced_example : IsBalanced 1 (reserve_tenant_available_credits 1 (pos 4) world).1
unfolding ◌+ℤ◌
reserve-IsBalanced_example = reserve-IsBalanced 1 1 (pos 4) world refl

credit_op-IsSolvent_example : IsSolvent 1 (run_credit_op CreditOp.capture 1 (pos 4) world).1
credit_op-IsSolvent_example =
    credit_op-IsSolvent CreditOp.capture 1 1 (pos 4) (omega arith) world (omega arith, omega arith)

release-reserve_example :
    accounts
      (release_tenant_reserved_credits 1
        (pos 4)
        (reserve_tenant_available_credits 1 (pos 4) world).1).1
      1
    ≡ some (with_credits (pos 90) (pos 10) 7 account)
release-reserve_example =
    release-reserve 1 (pos 4) world account refl refl (omega arith) (omega arith)

abbrev usage : OutboundUsage
usage = record {
  entry_type = Debit.debit_send;
  usage_type = UsageType.send;
  credits_charged = pos 1;
  message_id = codes "m";
  outbound_job_id = codes "j";
  draft_id = none;
  draft_created_via = some (codes "api");
  recipient_domains = codes "example.org" ∷ [];
  external_domains = codes "example.org" ∷ [];
}

abbrev new_entry : NewEntry
new_entry = outbound_usage_entry 1 (neg (pos 1)) "outbound_send_settlement" 20

parse-serialize_example :
    parse_typed_credit_ledger_entry CreditLedgerEntryType.debit_send
      (some (serialize_credit_ledger_metadata (outbound_usage usage)))
    ≡ some (outbound_usage usage)
parse-serialize_example = parse-serialize (outbound_usage usage)

abbrev appended : Result TypedEntry × World
appended =
    append_typed_entry anything CreditLedgerEntryType.debit_send (outbound_usage usage) new_entry
      world

abbrev appended_entry : TypedEntry
appended_entry = record {
  entry = entry_row new_entry CreditLedgerEntryType.debit_send (outbound_usage usage) 100 7;
  metadata = outbound_usage usage;
}

abbrev reconciled_account : BillingAccount
reconciled_account = with_credits (pos 90) (pos 10) 7 account

reconciles :
    reconcile_tenant_available_credits 1 world
    ≡ (ok reconciled_account, (reconcile_tenant_available_credits 1 world).1)
unfolding reconcile_tenant_available_credits ◌+ℤ◌ ◌-ℤ◌
reconciles = refl

reconcile-IsBalanced_example :
    IsBalanced 1 (reconcile_tenant_available_credits 1 world).1
    × (accounts (reconcile_tenant_available_credits 1 world).1 1 ≡ some reconciled_account)
    × ((reconcile_tenant_available_credits 1 world).1.bank.ledger ≡ world.bank.ledger)
reconcile-IsBalanced_example =
    reconcile-IsBalanced 1 world (reconcile_tenant_available_credits 1 world).1 reconciled_account
      reconciles
