-- ===== src/World/Monad.antt =====
-- Async code: it returns or throws, and what was written before a throw stays written.
-- Each call of D1, R2, a queue or a provider asks `faults` whether it fails: a statement that
-- fails throws and writes nothing. The theorems hold for every list of faults.
use mailagents_email_runtime.Base.{
  ℕ, ◌+◌, ◌≡◌, refl, ◌⊎◌, inl, inr, Bool, true, false, Option, none, some, List, [], ◌∷◌,
  if◌then◌else◌,
}
use mailagents_email_runtime.World.Rows.{Bank, Mail, IdempotencyRow, DeadLetter}

pub record World : Type 0 where
  pub bank : Bank
  pub mail : Mail
  pub idempotency : List IdempotencyRow
  pub dead_letters : List DeadLetter
  pub send_queue : List ℕ
  pub now : ℕ
  pub next_id : ℕ
  pub faults : List Bool

-- The errors that the code tells apart, `uniqueness` being the database's, and the others by what
-- is thrown.
pub data Failure : Type 0 where
  unavailable : Failure
  plain : Failure
  billing_uniqueness : Failure
  uniqueness : Failure
  outbound_policy : Failure
  validation : ℕ → Failure
  route_request : ℕ → Failure

pub data Result {ℓ} (A : Type ℓ) : Type ℓ where
  ok : A → Result A
  err : Failure → Result A

abbrev pub Action : Type 0 → Type 0
Action A = World → Result A × World

abbrev pub Done : Type 0
Done = Unit {0}

module _ {A : Type 0} where
  abbrev pub pure : A → Action A
  pure a w = (ok a, w)

  abbrev pub throw : Failure → Action A
  throw e w = (err e, w)

  abbrev pub gets : (World → A) → Action A
  gets f w = (ok (f w), w)

  -- `requireRow`
  abbrev pub require_row : Option A → Action A
  require_row none = throw plain
  require_row (some a) = pure a

abbrev pub is_ok {ℓ} : {A : Type ℓ} → Result A → Bool
is_ok (ok _) = true
is_ok (err _) = false

-- What follows an await: its continuation where it returned, the throw passed on where it threw.
abbrev pub continue : {A B : Type 0} → (A → Action B) → Result A × World → Result B × World
continue f (ok a, w) = f a w
continue f (err e, w) = (err e, w)

infixl 5 ◌>>=◌ ◌>>◌
abbrev pub ◌>>=◌ : {A B : Type 0} → Action A → (A → Action B) → Action B
◌>>=◌ m f w = continue f (m w)

abbrev pub ◌>>◌ : {A B : Type 0} → Action A → Action B → Action B
m >> k = m >>= λ _. k

abbrev pub modify : (World → World) → Action Done
modify f w = (ok tt, f w)

abbrev pub recover : {A : Type 0} → (Failure → Action A) → Result A × World → Result A × World
recover h (ok a, w) = (ok a, w)
recover h (err e, w) = h e w

-- `m.catch(h)`
abbrev pub catch_with : {A : Type 0} → Action A → (Failure → Action A) → Action A
catch_with m h w = recover h (m w)

abbrev pub when : Bool → Action Done → Action Done
when true m = m
when false m = pure tt

abbrev pub throw_if : Bool → Failure → Action Done
throw_if true e = throw e
throw_if false e = pure tt

abbrev next_fault : List Bool → Bool × List Bool
next_fault [] = (false, [])
next_fault (f ∷ fs) = (f, fs)

-- One awaited call of a service.
unfoldable pub service : Action Done
service w =
    let (failed, rest) = next_fault w.faults in
    (if failed then err unavailable else ok tt, record w { faults = rest })

-- the world in which no service fails
abbrev pub calm : World → World
calm w = record w { faults = [] }

-- `createId`: a new identifier at each call.
unfoldable pub create_id : Action ℕ
create_id w = (ok w.next_id, record w { next_id = w.next_id + 1 })

-- What a call leaves as it was: a predicate of the world that holds before and after it, however
-- it ends.
abbrev pub Keeps : {A : Type 0} → (World → Type 0) → Action A → Type 0
Keeps P m = (w : World) → P w → P (m w).1

-- To split on how a call ends.
pub Result-cases :
    {A : Type 0} (x : Result A × World)
    → ((a : A) × (w : World) × (x ≡ (ok a, w))) ⊎ ((e : Failure) × (w : World) × (x ≡ (err e, w)))
Result-cases (ok a, w) = inl (a, w, refl)
Result-cases (err e, w) = inr (e, w, refl)

-- What follows a call that itself is two calls.
pub bind_assoc :
    {A B C : Type 0} (m : Action A) (f : A → Action B) (g : B → Action C) (w : World)
    → ((m >>= f) >>= g) w ≡ (m >>= λ a. f a >>= g) w
bind_assoc {A} m f g w = go (m w)
  where
    go : (x : Result A × World) → continue g (continue f x) ≡ continue (λ a. f a >>= g) x
    go (ok a, v) = refl
    go (err e, v) = refl

-- A call that returned went through each of its parts.
pub bind-eq-ok :
    {A B : Type 0} (m : Action A) (f : A → Action B) (w : World) {b : B} {w' : World}
    → (m >>= f) w ≡ (ok b, w')
    → (a : A) × (v : World) × (m w ≡ (ok a, v)) × (f a v ≡ (ok b, w'))
bind-eq-ok {A} {B} m f w {b} {w'} h = go (m w) refl h
  where
    go :
        (x : Result A × World)
        → m w ≡ x
        → continue f x ≡ (ok b, w')
        → (a : A) × (v : World) × (m w ≡ (ok a, v)) × (f a v ≡ (ok b, w'))
    go (ok a, v) e h = (a, v, e, h)
    go (err x, v) e h = cc

module _ (P : World → Type 0) where
  pub bind-Keeps :
      {A B : Type 0} (m : Action A) (f : A → Action B)
      → Keeps P m
      → ((a : A) → Keeps P (f a))
      → Keeps P (m >>= f)
  bind-Keeps {A} m f hm hf w h = go (m w) (hm w h)
    where
      go : (x : Result A × World) → P x.1 → P (continue f x).1
      go (ok a, v) p = hf a v p
      go (err y, v) p = p

  pub catch_with-Keeps :
      {A : Type 0} (m : Action A) (h : Failure → Action A)
      → Keeps P m
      → ((e : Failure) → Keeps P (h e))
      → Keeps P (catch_with m h)
  catch_with-Keeps {A} m h hm hh w p = go (m w) (hm w p)
    where
      go : (x : Result A × World) → P x.1 → P (recover h x).1
      go (ok a, v) q = q
      go (err y, v) q = hh y v q
