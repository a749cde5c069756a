-- ===== src/Payments/Rules.antt =====
-- How the steps of a confirmation are put together: an action ensures a fact of its value, where it
-- returns, and keeps a predicate of the world, however it ends.
use mailagents_email_runtime.Base.{◌≡◌, refl, Bool, true, false, if◌then◌else◌}
use mailagents_email_runtime.World.{
  World, Action, Failure, Result, ok, err, continue, recover, ◌>>=◌, Keeps, catch_with, throw_if,
}

module _ (P : World → Type 0) where
  -- What holds where an action ends.
  abbrev pub Ended : {A : Type 0} → (A → Type 0) → Result A × World → Type 0
  Ended R (ok a, v) = P v × R a
  Ended R (err _, v) = P v

  abbrev pub Ensures : {A : Type 0} → (A → Type 0) → Action A → Type 0
  Ensures R m = (w : World) → P w → Ended R (m w)

  pub Ensures-of_Keeps :
      {A : Type 0} (R : A → Type 0) (m : Action A)
      → Keeps P m
      → ((w : World) (a : A) (v : World) → m w ≡ (ok a, v) → R a)
      → Ensures R m
  Ensures-of_Keeps {A} R m keeps gives w h = go (m w) refl (keeps w h)
    where
      go : (x : Result A × World) → m w ≡ x → P x.1 → Ended R x
      go (ok a, v) e p = (p, gives w a v e)
      go (err y, v) e p = p

  pub Keeps-of_Ensures : {A : Type 0} (R : A → Type 0) (m : Action A) → Ensures R m → Keeps P m
  Keeps-of_Ensures {A} R m ensures w h = go (m w) (ensures w h)
    where
      go : (x : Result A × World) → Ended R x → P x.1
      go (ok a, v) (p, r) = p
      go (err y, v) p = p

  pub bind-Ensures :
      {A B : Type 0} (R : A → Type 0) (S : B → Type 0) (m : Action A) (f : A → Action B)
      → Ensures R m
      → ((a : A) → R a → Ensures S (f a))
      → Ensures S (m >>= f)
  bind-Ensures {A} R S m f hm hf w h = go (m w) (hm w h)
    where
      go : (x : Result A × World) → Ended R x → Ended S (continue f x)
      go (ok a, v) (p, r) = hf a r v p
      go (err y, v) p = p

  pub throw_if-Keeps : (b : Bool) (e : Failure) → Keeps P (throw_if b e)
  throw_if-Keeps true e = λ w h. h
  throw_if-Keeps false e = λ w h. h

  pub if-Keeps :
      {A : Type 0} (b : Bool) (m n : Action A)
      → Keeps P m
      → Keeps P n
      → Keeps P (if b then m else n)
  if-Keeps true m n hm hn = hm
  if-Keeps false m n hm hn = hn

  -- after a step of which only the world matters
  pub bind_keeping-Ensures :
      {A B : Type 0} (S : B → Type 0) (m : Action A) (f : A → Action B)
      → Keeps P m
      → ((a : A) → Ensures S (f a))
      → Ensures S (m >>= f)
  bind_keeping-Ensures {A} S m f hm hf w h = go (m w) (hm w h)
    where
      go : (x : Result A × World) → P x.1 → Ended S (continue f x)
      go (ok a, v) p = hf a v p
      go (err y, v) p = p

  pub if-Ensures :
      {A : Type 0} (R : A → Type 0) (b : Bool) (m n : Action A)
      → (b ≡ true → Ensures R m)
      → (b ≡ false → Ensures R n)
      → Ensures R (if b then m else n)
  if-Ensures R true m n hm hn = hm refl
  if-Ensures R false m n hm hn = hn refl

  pub catch_with-Ensures :
      {A : Type 0} (R : A → Type 0) (m : Action A) (g : Failure → Action A)
      → Ensures R m
      → ((e : Failure) → Ensures R (g e))
      → Ensures R (catch_with m g)
  catch_with-Ensures {A} R m g hm hg w h = go (m w) (hm w h)
    where
      go : (x : Result A × World) → Ended R x → Ended R (recover g x)
      go (ok a, v) q = q
      go (err y, v) p = hg y v p
