-- ===== src/Base/Outcomes.antt =====
-- What holds of a value, if a call returned one, and of an optional value, if there is one.
use mathlib.Core.Path.{◌≡◌, refl, subst}
use mathlib.Core.Bool.{Bool, true, false}
use mathlib.Core.Option.{Option, none, some}
use inboxlume.Base.Tests.{if◌then◌else◌}
use inboxlume.Base.Results.{Result, ok, raise, ◌>>=◌}

abbrev pub OnSome : {A : Type 0} → (A → Type 0) → Option A → Type 0
OnSome I none = Unit
OnSome I (some a) = I a

abbrev pub OnOk : {A : Type 0} → (A → Type 0) → Result A → Type 0
OnOk Q (ok a) = Q a
OnOk Q (raise e) = Unit

-- A value of which `Q` holds, if there is one, from what is known of it.
pub OnOk-intro :
    {A : Type 0} (Q : A → Type 0) (r : Result A) → ((a : A) → r ≡ ok a → Q a) → OnOk Q r
OnOk-intro Q (ok a) f = f a refl
OnOk-intro Q (raise e) f = tt

pub OnOk-weaken :
    {A : Type 0} (Q R : A → Type 0) (r : Result A) → ((a : A) → Q a → R a) → OnOk Q r → OnOk R r
OnOk-weaken Q R (ok a) f q = f a q
OnOk-weaken Q R (raise e) f q = tt

pub OnOk-bind :
    {A B : Type 0} (Q : A → Type 0) (R : B → Type 0) (m : Result A) (f : A → Result B)
    → OnOk Q m
    → ((a : A) → Q a → OnOk R (f a))
    → OnOk R (m >>= f)
OnOk-bind Q R (ok a) f q g = g a q
OnOk-bind Q R (raise e) f q g = tt

pub OnOk-if :
    {A : Type 0} (Q : A → Type 0) (b : Bool) (m k : Result A)
    → (b ≡ true → OnOk Q m)
    → (b ≡ false → OnOk Q k)
    → OnOk Q (if b then m else k)
OnOk-if Q true m k f g = f refl
OnOk-if Q false m k f g = g refl

pub OnOk-get : {A : Type 0} (Q : A → Type 0) (m : Result A) (a : A) → m ≡ ok a → OnOk Q m → Q a
OnOk-get Q m a e q = subst (OnOk Q) e q
