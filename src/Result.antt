-- ===== src/Result.antt =====
-- The value that a call computes beside the return value 0, or the error that it returns.
use mathlib.Core.Path.{subst}
use ubturbo.Prelude.{Bool, false, ◌≡◌, true}
use ubturbo.Errno.{Errno}

pub data Result {κ} (V : Type κ) : Type κ where
  err : Errno → Result V
  ok : V → Result V

module _ {κ μ} {V : Type κ} {W : Type μ} where
  infixl 5 ◌>>=◌
  abbrev pub ◌>>=◌ : Result V → (V → Result W) → Result W
  err code >>= next = err code
  ok v >>= next = next v

-- The second call runs when the first returns 0.
infixl 5 ◌>>◌
abbrev pub ◌>>◌ {κ} : {V : Type κ} → Result (Unit {0}) → Result V → Result V
pre >> next = pre >>= λ u. next

-- `if (test) { ret = -e; goto OUT; }`
abbrev pub reject_if : Bool → Errno → Result (Unit {0})
reject_if true e = err e
reject_if false e = ok tt

-- A property of what a call returns with 0.
abbrev pub Ensures {ℓ κ} : {A : Type ℓ} → (A → Type κ) → Result A → Type κ
Ensures P (ok a) = P a
Ensures P (err e) = Unit

module _ {ℓ κ μ} {A : Type ℓ} {B : Type κ} (P : A → Type μ) (Q : B → Type μ) where
  pub Ensures-bind :
      (m : Result A) (f : A → Result B)
      → Ensures P m
      → ((a : A) → P a → Ensures Q (f a))
      → Ensures Q (m >>= f)
  Ensures-bind (ok a) f h k = k a h
  Ensures-bind (err e) f h k = tt

pub Ensures-any {ℓ} : {A : Type ℓ} (m : Result A) → Ensures (λ _. Unit {0}) m
Ensures-any (ok a) = tt
Ensures-any (err e) = tt

pub Ensures-elim {ℓ κ} :
    {A : Type ℓ} (P : A → Type κ) (m : Result A) (a : A) → Ensures P m → m ≡ ok a → P a
Ensures-elim P m a h e = subst (Ensures P) e h

pub Ensures-mono {ℓ κ μ} :
    {A : Type ℓ} (P : A → Type κ) (Q : A → Type μ) (m : Result A)
    → Ensures P m
    → ((a : A) → P a → Q a)
    → Ensures Q m
Ensures-mono P Q (ok a) h f = f a h
Ensures-mono P Q (err e) h f = tt
