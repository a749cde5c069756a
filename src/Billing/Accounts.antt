-- ===== src/Billing/Accounts.antt =====
-- The statements of src/repositories/billing.ts on `tenant_billing_accounts`.
use mailagents_email_runtime.Base.{
  ℕ, Bool, true, false, Option, none, some, List, [], ◌∷◌, ◌==◌, if◌then◌else◌, get_or,
}
use mailagents_email_runtime.Base.Int.{ℤ, pos, ◌+ℤ◌, ◌-ℤ◌, leb_ℤ}
use mailagents_email_runtime.Text.{Text}
use mailagents_email_runtime.World.{
  TenantBillingStatus, PricingTier, BillingAccount, LedgerEntry, World, Action, Done, ◌>>=◌, ◌>>◌,
  plain, pure, throw_if, gets, require_row, service,
}
use mailagents_email_runtime.World.Tables.{put}

abbrev pub accounts : World → ℕ → Option BillingAccount
accounts w = w.bank.accounts

abbrev pub ledger : World → List LedgerEntry
ledger w = w.bank.ledger

abbrev set_account : ℕ → BillingAccount → World → World
set_account t a w = record w { bank = record (w.bank) { accounts = put t a w.bank.accounts } }

-- `UPDATE tenant_billing_accounts SET f WHERE tenant_id = t AND p`; tells whether a row changed
unfoldable pub update_account :
    ℕ → (BillingAccount → Bool) → (BillingAccount → BillingAccount) → Action Bool
unfolding service
update_account t p f = service >> λ w. elim (accounts w t) [
  | none ↦ pure false w
  | some a ↦ if p a then pure true (set_account t (f a) w) else pure false w
]

unfoldable pub get_tenant_billing_account : ℕ → Action (Option BillingAccount)
unfolding service
get_tenant_billing_account t = service >> gets (λ w. accounts w t)

abbrev pub new_account : ℕ → BillingAccount
new_account now = record {
  status = TenantBillingStatus.trial;
  pricing_tier = PricingTier.free;
  default_network = none;
  default_asset = none;
  available_credits = pos 0;
  reserved_credits = pos 0;
  updated_at = now;
}

-- `INSERT OR IGNORE INTO tenant_billing_accounts`
insert_account : ℕ → Action Done
unfolding service
insert_account t = service >> λ w. elim (accounts w t) [
  | some _ ↦ pure tt w
  | none ↦ pure tt (set_account t (new_account w.now) w)
]

unfoldable pub ensure_tenant_billing_account : ℕ → Action BillingAccount
unfolding get_tenant_billing_account insert_account
ensure_tenant_billing_account t = do
  existing ← get_tenant_billing_account t
  elim existing [
    | some account ↦ pure account
    | none ↦ do insert_account t; created ← get_tenant_billing_account t; require_row created
  ]

abbrev required_account : ℕ → Action BillingAccount
unfolding get_tenant_billing_account
required_account t = do row ← get_tenant_billing_account t; require_row row

abbrev changed_account : Bool → ℕ → Action (Option BillingAccount)
unfolding get_tenant_billing_account
changed_account changed t =
    if changed then (do account ← required_account t; pure (some account)) else pure none

-- the input of `updateTenantBillingAccountProfile`
pub record Profile : Type 0 where
  pub status : Option TenantBillingStatus
  pub pricing_tier : Option PricingTier
  pub default_network : Option Text
  pub default_asset : Option Text

abbrev pub chosen {ℓ} : {A : Type ℓ} → Option A → Option A → Option A
chosen none old = old
chosen (some a) old = some a

abbrev with_profile : Profile → ℕ → BillingAccount → BillingAccount
with_profile p now a = record a {
  status = get_or p.status a.status;
  pricing_tier = get_or p.pricing_tier a.pricing_tier;
  default_network = chosen p.default_network a.default_network;
  default_asset = chosen p.default_asset a.default_asset;
  updated_at = now;
}

unfoldable pub update_tenant_billing_account_profile : ℕ → Profile → Action BillingAccount
unfolding ensure_tenant_billing_account update_account
update_tenant_billing_account_profile t profile = do
  ensure_tenant_billing_account t
  now ← gets (λ w. w.now)
  changed ← update_account t (λ _. true) (with_profile profile now)
  throw_if (if changed then false else true) plain
  required_account t

abbrev pub belongs_to : ℕ → LedgerEntry → Bool
belongs_to t e = e.tenant_id == t

-- `SUM(credits_delta)` over the tenant's entries
abbrev pub total_credits : ℕ → List LedgerEntry → ℤ
total_credits t [] = pos 0
total_credits t (e ∷ es) =
    let rest = total_credits t es in if belongs_to t e then e.credits_delta +ℤ rest else rest

abbrev pub with_available : ℤ → ℕ → BillingAccount → BillingAccount
with_available available now a = record a { available_credits = available; updated_at = now }

abbrev pub with_credits : ℤ → ℤ → ℕ → BillingAccount → BillingAccount
with_credits available reserved now a = record a {
  available_credits = available;
  reserved_credits = reserved;
  updated_at = now;
}

unfoldable pub reconcile_tenant_available_credits : ℕ → Action BillingAccount
unfolding ensure_tenant_billing_account update_account
reconcile_tenant_available_credits t = do
  ensure_tenant_billing_account t
  service
  total ← gets (λ w. total_credits t (ledger w))
  now ← gets (λ w. w.now)
  changed ← update_account t (λ _. true) (λ a. with_available (total -ℤ a.reserved_credits) now a)
  throw_if (if changed then false else true) plain
  required_account t

unfoldable pub reserve_tenant_available_credits : ℕ → ℤ → Action (Option BillingAccount)
unfolding update_account get_tenant_billing_account
reserve_tenant_available_credits t credits = do
  now ← gets (λ w. w.now)
  changed ←
      update_account t (λ a. leb_ℤ credits a.available_credits)
        (λ a. with_credits (a.available_credits -ℤ credits) (a.reserved_credits +ℤ credits) now a)
  changed_account changed t

unfoldable pub release_tenant_reserved_credits : ℕ → ℤ → Action (Option BillingAccount)
unfolding update_account get_tenant_billing_account
release_tenant_reserved_credits t credits = do
  now ← gets (λ w. w.now)
  changed ←
      update_account t (λ a. leb_ℤ credits a.reserved_credits)
        (λ a. with_credits (a.available_credits +ℤ credits) (a.reserved_credits -ℤ credits) now a)
  changed_account changed t

unfoldable pub capture_tenant_reserved_credits : ℕ → ℤ → Action (Option BillingAccount)
unfolding update_account get_tenant_billing_account
capture_tenant_reserved_credits t credits = do
  now ← gets (λ w. w.now)
  changed ←
      update_account t (λ a. leb_ℤ credits a.reserved_credits)
        (λ a. with_credits a.available_credits (a.reserved_credits -ℤ credits) now a)
  changed_account changed t

unfoldable pub decrement_tenant_available_credits : ℕ → ℤ → Action (Option BillingAccount)
unfolding update_account get_tenant_billing_account
decrement_tenant_available_credits t credits = do
  now ← gets (λ w. w.now)
  changed ←
      update_account t (λ a. leb_ℤ credits a.available_credits)
        (λ a. with_credits (a.available_credits -ℤ credits) a.reserved_credits now a)
  changed_account changed t
