-- ===== src/Drafts/Released.antt =====
-- Credits that an enqueueing reserves and releases again.
use mailagents_email_runtime.Base.{ℕ, ◌≡◌, ◌≢◌, refl, ◌⊎◌, Option, none, some, [], arith}
use mailagents_email_runtime.Base.Int.{ℤ, pos, ◌+ℤ◌, ◌-ℤ◌, ◌≤ℤ◌, int_laws}
use mailagents_email_runtime.World.{World, Draft, BillingAccount, Result, ok, err}
use mailagents_email_runtime.Credits.{OutboundCreditRequirement}
use mailagents_email_runtime.Billing.{
  reserve_tenant_available_credits, release_tenant_reserved_credits,
}
use mailagents_email_runtime.Drafts.{reserve_for, release_amount}
use mailagents_email_runtime.Drafts.Quiet.{Quiet}
use mailagents_email_runtime.Drafts.Priced.{IsPriced}

-- Two states of an account with the same credits.
abbrev pub SameCredits : Option BillingAccount → Option BillingAccount → Type 0
SameCredits none none = Unit
SameCredits none (some b) = ⊥
SameCredits (some a) none = ⊥
SameCredits (some a) (some b) =
    (b.available_credits ≡ a.available_credits) × (b.reserved_credits ≡ a.reserved_credits)

pub SameCredits-refl : (o : Option BillingAccount) → SameCredits o o
SameCredits-refl none = tt
SameCredits-refl (some a) = (refl, refl)

abbrev pub HasReserve : Option BillingAccount → Type 0
HasReserve none = Unit
HasReserve (some a) = pos 0 ≤ℤ a.reserved_credits

-- One credit of a tenant whose reserve is not negative has moved to the reserve.
abbrev pub ShiftedRow : Option BillingAccount → Option BillingAccount → Type 0
ShiftedRow none row = ⊥
ShiftedRow (some a) none = ⊥
ShiftedRow (some a) (some b) =
    (b.available_credits ≡ a.available_credits -ℤ pos 1)
    × (b.reserved_credits ≡ a.reserved_credits +ℤ pos 1)

abbrev pub Shifted : ℕ → ℕ → (ℕ → Option BillingAccount) → (ℕ → Option BillingAccount) → Type 0
Shifted t u old new = ((u ≡ t) × ShiftedRow (old u) (new u)) ⊎ ((u ≢ t) × (new u ≡ old u))

covers_one : (a : ℤ) → pos 0 ≤ℤ a → pos 1 ≤ℤ a +ℤ pos 1
covers_one a h = omega int_laws

back_available : (a : ℤ) → a -ℤ pos 1 +ℤ pos 1 ≡ a
back_available a = omega int_laws

back_reserved : (a : ℤ) → a +ℤ pos 1 -ℤ pos 1 ≡ a
back_reserved a = omega int_laws

module _ (d : Draft) (job message now : ℕ) where
  abbrev t : ℕ
  t = d.tenant_id

  pub release_same :
      (old new : ℕ → Option BillingAccount) (a b : BillingAccount) (w : World)
      → Quiet new w
      → old t ≡ some a
      → new t ≡ some b
      → pos 0 ≤ℤ a.reserved_credits
      → ShiftedRow (some a) (some b)
      → SameCredits (old t) ((release_amount d job message now (pos 1) w).1.bank.accounts t)
  unfolding release_amount release_tenant_reserved_credits
  release_same old new a b w h ea eb p s = grind (
    arith,
    covers_one a.reserved_credits,
    back_available a.available_credits,
    back_reserved a.reserved_credits,
  )

  pub release_other :
      (u : ℕ) (w : World)
      → u ≢ t
      → (release_amount d job message now (pos 1) w).1.bank.accounts u ≡ w.bank.accounts u
  unfolding release_amount release_tenant_reserved_credits
  release_other u w ne = grind arith

  -- How a reservation that starts quiet ends.
  abbrev pub ReservedFor : ℕ → (ℕ → Option BillingAccount) → Result ℤ × World → Type 0
  ReservedFor u old (ok amount, v) =
      (v.faults ≡ [])
      × (((amount ≡ pos 0) × (v.bank.accounts ≡ old))
          ⊎ ((amount ≡ pos 1) × Shifted t u old v.bank.accounts))
  ReservedFor u old (err _, v) = Quiet old v

  pub reserve_same :
      (old : ℕ → Option BillingAccount) (q : OutboundCreditRequirement) (w : World)
      → Quiet old w
      → IsPriced q
      → ReservedFor t old (reserve_for d q w)
  unfolding reserve_for reserve_tenant_available_credits
  reserve_same old q w h priced = grind arith

  pub reserve_other :
      (u : ℕ) (old : ℕ → Option BillingAccount) (q : OutboundCreditRequirement) (w : World)
      → u ≢ t
      → Quiet old w
      → IsPriced q
      → ReservedFor u old (reserve_for d q w)
  unfolding reserve_for reserve_tenant_available_credits
  reserve_other u old q w ne h priced = grind arith
