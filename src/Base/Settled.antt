-- ===== src/Base/Settled.antt =====
-- Calls that come back with a value or an error, and never panic.

use mfp.Base.Outcomes.{Result, ok, err, panic, stuck, ◌>>=◌}
use mathlib.Core.Path.{◌≡◌, refl}
use mathlib.Core.Logic.{◌≢◌}

-- `m` returns a value or an error, and if it returns a value then `P` holds of it.
abbrev pub Settles : {E A : Type 0} → Result E A → (A → Type 0) → Type 0
Settles (ok a) P = P a
Settles (err e) P = Unit
Settles panic P = ⊥
Settles stuck P = ⊥

module _ {E A B : Type 0} where
  pub Settles-bind :
      (m : Result E A) (f : A → Result E B) (P : A → Type 0) (Q : B → Type 0)
      → Settles m P
      → ((a : A) → m ≡ ok a → P a → Settles (f a) Q)
      → Settles (m >>= f) Q
  Settles-bind (ok a) f P Q h k = k a refl h
  Settles-bind (err e) f P Q h k = tt
  Settles-bind panic f P Q h k = absurd h
  Settles-bind stuck f P Q h k = absurd h

module _ {E A : Type 0} where
  pub Settles_cases : (m : Result E A) (P : A → Type 0) → Settles m P → (m ≢ panic) × (m ≢ stuck)
  Settles_cases (ok a) P h = ((λ e. cc), λ e. cc)
  Settles_cases (err x) P h = ((λ e. cc), λ e. cc)
  Settles_cases panic P h = absurd h
  Settles_cases stuck P h = absurd h

  pub Settles-weaken :
      (m : Result E A) (P Q : A → Type 0) → Settles m P → ((a : A) → P a → Q a) → Settles m Q
  Settles-weaken (ok a) P Q h k = k a h
  Settles-weaken (err e) P Q h k = tt
  Settles-weaken panic P Q h k = absurd h
  Settles-weaken stuck P Q h k = absurd h

  pub Settles-ok : (m : Result E A) (P : A → Type 0) (a : A) → Settles m P → m ≡ ok a → P a
  Settles-ok (ok b) P a h e = let x : b ≡ a = cc in rw (← x) h
  Settles-ok (err x) P a h e = cc
  Settles-ok panic P a h e = cc
  Settles-ok stuck P a h e = absurd h
