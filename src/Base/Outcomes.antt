-- ===== src/Base/Outcomes.antt =====
-- What a Go call of this program comes back with: a value, an error value, or a panic.
-- `stuck` is no Go outcome: a loop of the model ran out of fuel.
use mathlib.Core.Bool.{Bool, true, false}
use mathlib.Core.Path.{◌≡◌, refl}
use mathlib.Core.Logic.{◌≢◌}
use mathlib.Core.Option.{Option, none, some}

pub data Result {ℓ κ} (E : Type ℓ) (A : Type κ) : Type (ℓ ⊔ κ) where
  ok : A → Result E A
  err : E → Result E A
  panic : Result E A
  stuck : Result E A

module _ {ℓ κ ι} {E : Type ℓ} {A : Type κ} {B : Type ι} where
  infixl 5 ◌>>=◌
  abbrev pub ◌>>=◌ : Result E A → (A → Result E B) → Result E B
  ok a >>= f = f a
  err e >>= f = err e
  panic >>= f = panic
  stuck >>= f = stuck

  pub bind-eq-ok :
      (m : Result E A) (f : A → Result E B) {b : B}
      → (m >>= f) ≡ ok b
      → (a : A) × (m ≡ ok a) × (f a ≡ ok b)
  bind-eq-ok (ok a) f h = (a, refl, h)
  bind-eq-ok (err e) f h = cc
  bind-eq-ok panic f h = cc
  bind-eq-ok stuck f h = cc

-- `if e := f(); e != nil { return e }`
abbrev pub check {ℓ} : {E : Type ℓ} → Option E → Result E (Unit {0})
check none = ok tt
check (some e) = err e

infixl 5 ◌>>◌
abbrev pub ◌>>◌ {ℓ κ} : {E : Type ℓ} {B : Type κ} → Result E (Unit {0}) → Result E B → Result E B
m >> k = m >>= λ _. k

module _ {ℓ κ ι} {E : Type ℓ} {A : Type κ} {B : Type ι} where
  -- Two continuations that agree on the value of `m` give the same outcome.
  pub bind-cong :
      (m : Result E A) (f g : A → Result E B)
      → ((a : A) → m ≡ ok a → f a ≡ g a)
      → (m >>= f) ≡ (m >>= g)
  bind-cong (ok a) f g h = h a refl
  bind-cong (err e) f g h = refl
  bind-cong panic f g h = refl
  bind-cong stuck f g h = refl

abbrev pub is_ok {ℓ κ} : {E : Type ℓ} {A : Type κ} → Result E A → Bool
is_ok (ok a) = true
is_ok _ = false

-- Total correctness: `m` comes to an end, and if it returns a value then `P` holds of it.
abbrev pub Ends {ℓ κ} : {E : Type ℓ} {A : Type κ} → Result E A → (A → Type 0) → Type 0
Ends (ok a) P = P a
Ends (err e) P = Unit
Ends panic P = Unit
Ends stuck P = ⊥

module _ {E A B : Type 0} where
  pub Ends-bind :
      (m : Result E A) (f : A → Result E B) (P : A → Type 0) (Q : B → Type 0)
      → Ends m P
      → ((a : A) → P a → Ends (f a) Q)
      → Ends (m >>= f) Q
  Ends-bind (ok a) f P Q h k = k a h
  Ends-bind (err e) f P Q h k = tt
  Ends-bind panic f P Q h k = tt
  Ends-bind stuck f P Q h k = absurd h

module _ {E A : Type 0} where
  pub Ends-ne-stuck : (m : Result E A) (P : A → Type 0) → Ends m P → m ≢ stuck
  Ends-ne-stuck (ok a) P h e = cc
  Ends-ne-stuck (err x) P h e = cc
  Ends-ne-stuck panic P h e = cc
  Ends-ne-stuck stuck P h e = absurd h

  pub Ends-ok : (m : Result E A) (P : A → Type 0) (a : A) → Ends m P → m ≡ ok a → P a
  Ends-ok (ok b) P a h e = let x : b ≡ a = cc in rw (← x) h
  Ends-ok (err x) P a h e = cc
  Ends-ok panic P a h e = cc
  Ends-ok stuck P a h e = absurd h

  pub Ends-weaken :
      (m : Result E A) (P Q : A → Type 0) → Ends m P → ((a : A) → P a → Q a) → Ends m Q
  Ends-weaken (ok a) P Q h k = k a h
  Ends-weaken (err e) P Q h k = tt
  Ends-weaken panic P Q h k = tt
  Ends-weaken stuck P Q h k = absurd h

  pub Ends-both :
      (m : Result E A) (P Q : A → Type 0) → Ends m P → Ends m Q → Ends m (λ a. P a × Q a)
  Ends-both (ok a) P Q h k = (h, k)
  Ends-both (err e) P Q h k = tt
  Ends-both panic P Q h k = tt
  Ends-both stuck P Q h k = absurd h

  pub Ends_from :
      (m : Result E A) (P : A → Type 0) → m ≢ stuck → ((a : A) → m ≡ ok a → P a) → Ends m P
  Ends_from (ok a) P n h = h a refl
  Ends_from (err x) P n h = tt
  Ends_from panic P n h = tt
  Ends_from stuck P n h = n refl
