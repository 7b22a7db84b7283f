-- ===== src/Base/Checked.antt =====
-- Computations that may fault: `fault` is an exception (the `RangeError` of a `Buffer` read out of
-- range) or the use of an `undefined` byte as a number.
use mathlib.Core.Path.{◌≡◌, refl, subst}
use mathlib.Core.Bool.{Bool, true, false}
use mathlib.Core.Logic.{◌≢◌}
use network_monitoring.Base.Tests.{if◌then◌else◌}

pub data Checked {ℓ} (A : Type ℓ) : Type ℓ where
  ok : A → Checked A
  fault : Checked A

infixl 5 ◌>>=◌
abbrev pub ◌>>=◌ {ℓ κ} : {A : Type ℓ} {B : Type κ} → Checked A → (A → Checked B) → Checked B
ok a >>= f = f a
fault >>= f = fault

-- The computation ends with a value.
abbrev pub Returns {ℓ} : {A : Type ℓ} → Checked A → Type ℓ
Returns {A} m = (a : A) × (m ≡ ok a)

pub Returns-bind {ℓ κ} :
    {A : Type ℓ} {B : Type κ} (m : Checked A) (f : A → Checked B)
    → Returns m
    → ((a : A) → m ≡ ok a → Returns (f a))
    → Returns (m >>= f)
Returns-bind (ok a) f h k = k a refl
Returns-bind fault f h k = cc h.1

pub >>=-eq-ok {ℓ κ} :
    {A : Type ℓ} {B : Type κ} (run : Checked A) (next : A → Checked B) {result : B}
    → (run >>= next) ≡ ok result
    → (a : A) × (run ≡ ok a) × (next a ≡ ok result)
>>=-eq-ok (ok a) next h = (a, refl, h)
>>=-eq-ok fault next h = cc

pub Returns-of_ne {ℓ} : {A : Type ℓ} (m : Checked A) → m ≢ fault → Returns m
Returns-of_ne (ok a) h = (a, refl)
Returns-of_ne fault h = absurd (h refl)

pub bind-ne-fault {ℓ κ} :
    {A : Type ℓ} {B : Type κ} (m : Checked A) (f : A → Checked B)
    → m ≢ fault
    → ((a : A) → f a ≢ fault)
    → (m >>= f) ≢ fault
bind-ne-fault (ok a) f h k = k a
bind-ne-fault fault f h k = absurd (h refl)

pub ok-ne-fault {ℓ} : {A : Type ℓ} (a : A) → ok a ≢ fault
ok-ne-fault a = cc

-- Whatever value the computation ends with satisfies `P`.
abbrev pub Ensures {ℓ κ} : {A : Type ℓ} → (A → Type κ) → Checked A → Type κ
Ensures P (ok a) = P a
Ensures P fault = Unit

pub Ensures-bind {ℓ κ μ} :
    {A : Type ℓ} {B : Type κ} (P : B → Type μ) (m : Checked A) (f : A → Checked B)
    → ((a : A) → m ≡ ok a → Ensures P (f a))
    → Ensures P (m >>= f)
Ensures-bind P (ok a) f h = h a refl
Ensures-bind P fault f h = tt

pub Ensures-after {ℓ κ μ ν} :
    {A : Type ℓ} {B : Type κ} (Q : A → Type ν) (P : B → Type μ) (m : Checked A) (f : A → Checked B)
    → Ensures Q m
    → ((a : A) → Q a → Ensures P (f a))
    → Ensures P (m >>= f)
Ensures-after Q P (ok a) f q h = h a q
Ensures-after Q P fault f q h = tt

ok-injective {ℓ} : {A : Type ℓ} (a b : A) → ok a ≡ ok b → a ≡ b
ok-injective a b p = cc

pub Ensures-value {ℓ κ} :
    {A : Type ℓ} (P : A → Type κ) (m : Checked A) {a : A} → Ensures P m → m ≡ ok a → P a
Ensures-value P (ok b) {a} h e = subst P (ok-injective b a e) h
Ensures-value P fault h e = cc

pub Ensures-if {ℓ κ} :
    {A : Type ℓ} (P : A → Type κ) (test : Bool) (m n : Checked A)
    → (test ≡ true → Ensures P m)
    → (test ≡ false → Ensures P n)
    → Ensures P (if test then m else n)
Ensures-if P true m n h k = h refl
Ensures-if P false m n h k = k refl

-- The computation ends, with a value that satisfies `P`.
abbrev pub Achieves {ℓ} : {A : Type ℓ} → (A → Type 0) → Checked A → Type 0
Achieves P (ok a) = P a
Achieves P fault = ⊥

pub Achieves-bind {ℓ κ} :
    {A : Type ℓ} {B : Type κ} (Q : A → Type 0) (P : B → Type 0) (m : Checked A) (f : A → Checked B)
    → Achieves Q m
    → ((a : A) → Q a → Achieves P (f a))
    → Achieves P (m >>= f)
Achieves-bind Q P (ok a) f q h = h a q
Achieves-bind Q P fault f q h = q

pub Achieves-after {ℓ κ} :
    {A : Type ℓ} {B : Type κ} (P : B → Type 0) (m : Checked A) (f : A → Checked B)
    → m ≢ fault
    → ((a : A) → m ≡ ok a → Achieves P (f a))
    → Achieves P (m >>= f)
Achieves-after P (ok a) f q h = h a refl
Achieves-after P fault f q h = q refl

pub Achieves-value {ℓ} :
    {A : Type ℓ} (P : A → Type 0) (m : Checked A) → Achieves P m → (a : A) × (m ≡ ok a) × P a
Achieves-value P (ok a) h = (a, refl, h)
Achieves-value P fault h = absurd h

pub Achieves-weaken {ℓ} :
    {A : Type ℓ} (P Q : A → Type 0) (m : Checked A)
    → ((a : A) → P a → Q a)
    → Achieves P m
    → Achieves Q m
Achieves-weaken P Q (ok a) h p = h a p
Achieves-weaken P Q fault h p = p
