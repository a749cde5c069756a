-- ===== src/Guards/Ensures.antt =====
-- Reading actions that establish a fact of the mail tables where they return.
use mailagents_email_runtime.Base.{◌≡◌, ◌∙◌, subst}
use mailagents_email_runtime.World.{World, Mail, Action, Result, ok, err, continue, ◌>>=◌}

-- Where `m` returns a value, the value is one of which `P` holds, and the mail is as it was.
abbrev pub Outcome : {A : Type 0} → (Mail → A → Type 0) → Mail → Result A × World → Type 0
Outcome P mail (ok a, v) = P mail a × (v.mail ≡ mail)
Outcome P mail (err _, v) = Unit

abbrev pub Ensures : {A : Type 0} → (Mail → A → Type 0) → Action A → Type 0
Ensures P m = (w : World) → Outcome P w.mail (m w)

-- `a` and the value that follows it
abbrev pub Both : {A B : Type 0} → (Mail → A → Type 0) → (A → Mail → B → Type 0) → Mail → B → Type 0
Both {A} P Q mail b = (a : A) × P mail a × Q a mail b

pub bind-Ensures :
    {A B : Type 0} (P : Mail → A → Type 0) (Q : A → Mail → B → Type 0) (m : Action A)
    (f : A → Action B)
    → Ensures P m
    → ((a : A) → Ensures (Q a) (f a))
    → Ensures (Both P Q) (m >>= f)
bind-Ensures {A} {B} P Q m f hm hf w = go (m w) (hm w)
  where
    last :
        (a : A) (mail : Mail) (x : Result B × World)
        → P w.mail a
        → mail ≡ w.mail
        → Outcome (Q a) mail x
        → Outcome (Both P Q) w.mail x
    last a mail (ok b, v) p e (q, same) = ((a, p, subst (λ μ. Q a μ b) e q), same ∙ e)
    last a mail (err _, v) p e q = tt

    go : (x : Result A × World) → Outcome P w.mail x → Outcome (Both P Q) w.mail (continue f x)
    go (ok a, v) (p, e) = last a v.mail (f a v) p e (hf a v)
    go (err _, v) h = tt

pub Ensures-of :
    {A : Type 0} (P Q : Mail → A → Type 0) (m : Action A)
    → ((mail : Mail) (a : A) → P mail a → Q mail a)
    → Ensures P m
    → Ensures Q m
Ensures-of {A} P Q m imp h w = go (m w) (h w)
  where
    go : (x : Result A × World) → Outcome P w.mail x → Outcome Q w.mail x
    go (ok a, v) (p, e) = (imp w.mail a p, e)
    go (err _, v) p = tt

-- Where `m` returns, `P` holds of the mail before it, the value and the world after it.
abbrev pub Reached : {A : Type 0} → (Mail → A → World → Type 0) → Mail → Result A × World → Type 0
Reached P mail (ok a, v) = P mail a v
Reached P mail (err _, v) = Unit

abbrev pub Leads : {A : Type 0} → (Mail → A → World → Type 0) → Action A → Type 0
Leads P m = (w : World) → Reached P w.mail (m w)

-- what a check has seen of its value, and what follows it
abbrev pub Then :
    {A B : Type 0}
    → (Mail → A → Type 0)
    → (A → Mail → B → World → Type 0)
    → Mail
    → B
    → World
    → Type 0
Then {A} P Q mail b v = (a : A) × P mail a × Q a mail b v

pub bind-Leads :
    {A B : Type 0} (P : Mail → A → Type 0) (Q : A → Mail → B → World → Type 0) (m : Action A)
    (f : A → Action B)
    → Ensures P m
    → ((a : A) → Leads (Q a) (f a))
    → Leads (Then P Q) (m >>= f)
bind-Leads {A} {B} P Q m f hm hf w = go (m w) (hm w)
  where
    last :
        (a : A) (mail : Mail) (x : Result B × World)
        → P w.mail a
        → mail ≡ w.mail
        → Reached (Q a) mail x
        → Reached (Then P Q) w.mail x
    last a mail (ok b, v) p e q = (a, p, subst (λ μ. Q a μ b v) e q)
    last a mail (err _, v) p e q = tt

    go : (x : Result A × World) → Outcome P w.mail x → Reached (Then P Q) w.mail (continue f x)
    go (ok a, v) (p, e) = last a v.mail (f a v) p e (hf a v)
    go (err _, v) h = tt
