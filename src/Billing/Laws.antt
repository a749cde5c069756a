-- ===== src/Billing/Laws.antt =====
-- What the statements on the accounts do, for every fault.
use mailagents_email_runtime.Base.{ℕ, ◌≡◌, ◌≢◌, ◌⊎◌, Option, none, some, [], arith}
use mailagents_email_runtime.Base.Int.{ℤ, pos, ◌+ℤ◌, ◌-ℤ◌, ◌≤ℤ◌, int_laws}
use mailagents_email_runtime.World.{World, BillingAccount, Action, Result, ok, err, Keeps}
use mailagents_email_runtime.Billing.Accounts.{
  accounts, ledger, with_credits, reserve_tenant_available_credits, release_tenant_reserved_credits,
  capture_tenant_reserved_credits, decrement_tenant_available_credits,
  reconcile_tenant_available_credits, total_credits,
}

-- Available and reserved credits of the tenant add up to its ledger.
abbrev pub IsBalancedRow : ℤ → Option BillingAccount → Type 0
IsBalancedRow total none = Unit
IsBalancedRow total (some a) = a.available_credits +ℤ a.reserved_credits ≡ total

abbrev pub IsBalanced : ℕ → World → Type 0
IsBalanced t w = IsBalancedRow (total_credits t (ledger w)) (accounts w t)

abbrev pub IsSolventRow : Option BillingAccount → Type 0
IsSolventRow none = Unit
IsSolventRow (some a) = (pos 0 ≤ℤ a.available_credits) × (pos 0 ≤ℤ a.reserved_credits)

-- No credit balance of the tenant is negative.
abbrev pub IsSolvent : ℕ → World → Type 0
IsSolvent t w = IsSolventRow (accounts w t)

-- A reservation keeps every tenant's account in balance with the ledger, also when it fails.
pub reserve-IsBalanced :
    (t u : ℕ) (c : ℤ) → Keeps (IsBalanced u) (reserve_tenant_available_credits t c)
unfolding reserve_tenant_available_credits
reserve-IsBalanced t u c w h = grind int_laws

pub release-IsBalanced :
    (t u : ℕ) (c : ℤ) → Keeps (IsBalanced u) (release_tenant_reserved_credits t c)
unfolding release_tenant_reserved_credits
release-IsBalanced t u c w h = grind int_laws

module _ (t u : ℕ) (c : ℤ) (p : pos 0 ≤ℤ c) where
  pub reserve-IsSolvent : Keeps (IsSolvent u) (reserve_tenant_available_credits t c)
  unfolding reserve_tenant_available_credits
  reserve-IsSolvent w h = grind int_laws

  pub release-IsSolvent : Keeps (IsSolvent u) (release_tenant_reserved_credits t c)
  unfolding release_tenant_reserved_credits
  release-IsSolvent w h = grind int_laws

  pub capture-IsSolvent : Keeps (IsSolvent u) (capture_tenant_reserved_credits t c)
  unfolding capture_tenant_reserved_credits
  capture-IsSolvent w h = grind int_laws

  pub decrement-IsSolvent : Keeps (IsSolvent u) (decrement_tenant_available_credits t c)
  unfolding decrement_tenant_available_credits
  decrement-IsSolvent w h = grind int_laws

-- The statements on the accounts, as a caller chooses among them.
pub data CreditOp : Type 0 where
  reserve release capture decrement : CreditOp

abbrev pub run_credit_op : CreditOp → ℕ → ℤ → Action (Option BillingAccount)
run_credit_op reserve = reserve_tenant_available_credits
run_credit_op release = release_tenant_reserved_credits
run_credit_op capture = capture_tenant_reserved_credits
run_credit_op decrement = decrement_tenant_available_credits

-- No statement with an amount of zero or more turns a balance of any tenant negative.
pub credit_op-IsSolvent :
    (op : CreditOp) (t u : ℕ) (c : ℤ) → pos 0 ≤ℤ c → Keeps (IsSolvent u) (run_credit_op op t c)
credit_op-IsSolvent reserve t u c p = reserve-IsSolvent t u c p
credit_op-IsSolvent release t u c p = release-IsSolvent t u c p
credit_op-IsSolvent capture t u c p = capture-IsSolvent t u c p
credit_op-IsSolvent decrement t u c p = decrement-IsSolvent t u c p

-- The row after `c` covered credits moved from available to reserved.
abbrev pub Moved : ℤ → ℕ → Option BillingAccount → Option BillingAccount → Type 0
Moved c now none row = ⊥
Moved c now (some a) row =
    (c ≤ℤ a.available_credits)
    × (row ≡ some (with_credits (a.available_credits -ℤ c) (a.reserved_credits +ℤ c) now a))

abbrev pub IsUncovered : ℤ → Option BillingAccount → Type 0
IsUncovered c none = Unit
IsUncovered c (some a) = ¬ (c ≤ℤ a.available_credits)

-- What a reservation of `c` credits that began in `w` has done, by how it ended.
abbrev pub Reserves : ℕ → ℤ → World → Result (Option BillingAccount) × World → Type 0
Reserves t c w (ok (some b), w') =
    Moved c w.now (accounts w t) (accounts w' t) × (accounts w' t ≡ some b)
Reserves t c w (ok none, w') = (w'.bank ≡ w.bank) × IsUncovered c (accounts w t)
Reserves t c w (err _, w') = (w'.bank ≡ w.bank) ⊎ Moved c w.now (accounts w t) (accounts w' t)

-- A reservation moves the credits exactly where the account covers them; a null means that it does
-- not and changes nothing; a throw leaves the bank as it was, or comes after the credits moved.
pub reserve-Reserves :
    (t : ℕ) (c : ℤ) (w : World) → Reserves t c w (reserve_tenant_available_credits t c w)
unfolding reserve_tenant_available_credits
reserve-Reserves t c w = grind arith

-- No credit statement touches the account of another tenant.
pub credit_op_others :
    (op : CreditOp) (t u : ℕ) (c : ℤ) (w : World)
    → u ≢ t
    → accounts (run_credit_op op t c w).1 u ≡ accounts w u
unfolding reserve_tenant_available_credits release_tenant_reserved_credits
    capture_tenant_reserved_credits decrement_tenant_available_credits
credit_op_others reserve t u c w ne = ground arith
credit_op_others release t u c w ne = ground arith
credit_op_others capture t u c w ne = ground arith
credit_op_others decrement t u c w ne = ground arith

add_sub_cancel : (a c : ℤ) → a -ℤ c +ℤ c ≡ a
add_sub_cancel a c = omega int_laws

sub_add_cancel : (a c : ℤ) → a +ℤ c -ℤ c ≡ a
sub_add_cancel a c = omega int_laws

covers_after : (a c : ℤ) → pos 0 ≤ℤ a → c ≤ℤ a +ℤ c
covers_after a c h = omega int_laws

-- Where no service fails, the account covers the credits, and its reserve is not negative,
-- releasing what was just reserved gives the account its credits back.
pub release-reserve :
    (t : ℕ) (c : ℤ) (w : World) (a : BillingAccount)
    → w.faults ≡ []
    → accounts w t ≡ some a
    → c ≤ℤ a.available_credits
    → pos 0 ≤ℤ a.reserved_credits
    → accounts (release_tenant_reserved_credits t c (reserve_tenant_available_credits t c w).1).1 t
      ≡ some (with_credits a.available_credits a.reserved_credits w.now a)
unfolding release_tenant_reserved_credits reserve_tenant_available_credits
release-reserve t c w a calm ea covered nonneg = ground (
  arith,
  add_sub_cancel a.available_credits c,
  sub_add_cancel a.reserved_credits c,
  covers_after a.reserved_credits c,
)

-- A reconciliation that returns has set the available credits to the ledger's total less what is
-- reserved, whatever the account held before.
pub reconcile-IsBalanced :
    (t : ℕ) (w w' : World) (b : BillingAccount)
    → reconcile_tenant_available_credits t w ≡ (ok b, w')
    → IsBalanced t w' × (accounts w' t ≡ some b) × (w'.bank.ledger ≡ w.bank.ledger)
unfolding reconcile_tenant_available_credits
reconcile-IsBalanced t w w' b e = grind int_laws
