-- ===== src/Common/Ensures.antt =====
-- What holds of the result of a computation, if it has one.
use mathlib.Core.Path.{◌≡◌}
use mathlib.Core.Bool.{Bool, true, false}
use mathlib.Core.Option.{Option, none, some}
use binbows_dos.Common.Tests.{if◌then◌else◌}
use binbows_dos.Common.Lists.{◌>>=◌}

pub Ensures {ℓ κ} : {A : Type ℓ} → (A → Type κ) → Option A → Type κ
Ensures P none = Unit
Ensures P (some a) = P a

pub Ensures-none {ℓ κ} : {A : Type ℓ} (P : A → Type κ) → Ensures P none
unfolding Ensures
Ensures-none P = tt

pub Ensures-pure {ℓ κ} : {A : Type ℓ} (P : A → Type κ) (a : A) → P a → Ensures P (some a)
unfolding Ensures
Ensures-pure P a h = h

pub Ensures-bind {ℓ κ ν} :
    {A : Type ℓ} {B : Type κ} (P : B → Type ν) (o : Option A) (f : A → Option B)
    → ((a : A) → Ensures P (f a))
    → Ensures P (o >>= f)
unfolding Ensures
Ensures-bind P none f h = tt
Ensures-bind P (some a) f h = h a

-- What the first step ensures may be used in the second.
pub Ensures-then {ℓ κ ν μ} :
    {A : Type ℓ} {B : Type κ} (Q : A → Type μ) (P : B → Type ν) (o : Option A) (f : A → Option B)
    → Ensures Q o
    → ((a : A) → Q a → Ensures P (f a))
    → Ensures P (o >>= f)
unfolding Ensures
Ensures-then Q P none f h k = tt
Ensures-then Q P (some a) f h k = k a h

pub Ensures-if {ℓ κ} :
    {A : Type ℓ} (P : A → Type κ) (b : Bool) (x y : Option A)
    → Ensures P x
    → Ensures P y
    → Ensures P (if b then x else y)
Ensures-if P true x y h h' = h
Ensures-if P false x y h h' = h'

pub Ensures-some {ℓ κ} :
    {A : Type ℓ} (P : A → Type κ) (o : Option A) (a : A) → o ≡ some a → Ensures P o → P a
unfolding Ensures
Ensures-some P o a e h = rw e at h

pub Ensures-weaken {ℓ κ ν} :
    {A : Type ℓ} (Q : A → Type κ) (P : A → Type ν) (o : Option A)
    → ((a : A) → Q a → P a)
    → Ensures Q o
    → Ensures P o
unfolding Ensures
Ensures-weaken Q P none k h = tt
Ensures-weaken Q P (some a) k h = k a h
