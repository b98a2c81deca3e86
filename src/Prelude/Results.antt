-- ===== src/Prelude/Results.antt =====
-- What a call ends in: a value, or the way in which the process stops.
use mathlib.Core.Path.{◌≡◌, refl, subst}
use mathlib.Core.Bool.{Bool, true, false}
use flashflow_research.Prelude.Tests.{if◌then◌else◌}

-- `assertion`: a failed C `assert`. `panicked`: a Rust panic. `undefined`: C leaves the behaviour
-- open (a write past a buffer, a double free, signed overflow, a null pointer read).
pub data Fault : Type 0 where
  assertion panicked undefined : Fault

pub data Result {ℓ} (A : Type ℓ) : Type ℓ where
  ok : A → Result A
  err : Fault → Result A

infixl 5 ◌>>=◌
abbrev pub ◌>>=◌ {ℓ κ} : {X : Type ℓ} {Y : Type κ} → Result X → (X → Result Y) → Result Y
err fault >>= next = err fault
ok x >>= next = next x

-- Total correctness: the call returns, and its value has the property.
abbrev pub Returns {ℓ} : {A : Type ℓ} → Result A → (A → Type 0) → Type 0
Returns (ok a) P = P a
Returns (err e) P = ⊥

pub Returns-bind {ℓ κ} :
    {A : Type ℓ} {B : Type κ} (P : A → Type 0) (Q : B → Type 0) (m : Result A) (f : A → Result B)
    → Returns m P
    → ((a : A) → P a → Returns (f a) Q)
    → Returns (m >>= f) Q
Returns-bind P Q (ok a) f h k = k a h
Returns-bind P Q (err e) f h k = elim h [ ]

-- The same, where the rest goes by the value that was returned.
pub Returns-bind-eq {ℓ κ} :
    {A : Type ℓ} {B : Type κ} (P : A → Type 0) (Q : B → Type 0) (m : Result A) (f : A → Result B)
    → Returns m P
    → ((a : A) → m ≡ ok a → P a → Returns (f a) Q)
    → Returns (m >>= f) Q
Returns-bind-eq P Q (ok a) f h k = k a refl h
Returns-bind-eq P Q (err e) f h k = elim h [ ]

pub Returns-map {ℓ} :
    {A : Type ℓ} {P Q : A → Type 0} (m : Result A)
    → Returns m P
    → ((a : A) → P a → Q a)
    → Returns m Q
Returns-map (ok a) h k = k a h
Returns-map (err e) h k = elim h [ ]

infixl 5 ◌>>◌
abbrev pub ◌>>◌ {ℓ} : {Y : Type ℓ} → Result (Unit {0}) → Result Y → Result Y
check >> next = check >>= λ _. next

-- `if (!b) fault`
abbrev pub guard : Bool → Fault → Result (Unit {0})
guard false fault = err fault
guard true fault = ok tt

pub >>=-eq-ok {ℓ κ} :
    {X : Type ℓ} {Y : Type κ} (m : Result X) (next : X → Result Y) {y : Y}
    → (m >>= next) ≡ ok y
    → (x : X) × (m ≡ ok x) × (next x ≡ ok y)
>>=-eq-ok (err fault) next h = cc
>>=-eq-ok (ok x) next h = (x, refl, h)

-- Partial correctness: if the call returns, its value has the property.
abbrev pub Ensures {ℓ} : {A : Type ℓ} → Result A → (A → Type 0) → Type 0
Ensures (ok a) P = P a
Ensures (err e) P = Unit

pub Ensures-bind {ℓ κ} :
    {A : Type ℓ} {B : Type κ} (P : A → Type 0) (Q : B → Type 0) (m : Result A) (f : A → Result B)
    → Ensures m P
    → ((a : A) → P a → Ensures (f a) Q)
    → Ensures (m >>= f) Q
Ensures-bind P Q (ok a) f h k = k a h
Ensures-bind P Q (err e) f h k = tt

-- The same, where nothing is known of the value.
pub Ensures-any {ℓ κ} :
    {A : Type ℓ} {B : Type κ} (Q : B → Type 0) (m : Result A) (f : A → Result B)
    → ((a : A) → Ensures (f a) Q)
    → Ensures (m >>= f) Q
Ensures-any Q (ok a) f k = k a
Ensures-any Q (err e) f k = tt

-- The same, where the rest goes by the value that was returned.
pub Ensures-any-eq {ℓ κ} :
    {A : Type ℓ} {B : Type κ} (Q : B → Type 0) (m : Result A) (f : A → Result B)
    → ((a : A) → m ≡ ok a → Ensures (f a) Q)
    → Ensures (m >>= f) Q
Ensures-any-eq Q (ok a) f k = k a refl
Ensures-any-eq Q (err e) f k = tt

pub Ensures-if {ℓ} :
    {A : Type ℓ} (P : A → Type 0) (b : Bool) (m n : Result A)
    → (b ≡ true → Ensures m P)
    → (b ≡ false → Ensures n P)
    → Ensures (if b then m else n) P
Ensures-if P true m n h k = h refl
Ensures-if P false m n h k = k refl

pub Ensures-map {ℓ} :
    {A : Type ℓ} {P Q : A → Type 0} (m : Result A)
    → Ensures m P
    → ((a : A) → P a → Q a)
    → Ensures m Q
Ensures-map (ok a) h k = k a h
Ensures-map (err e) h k = tt

pub Ensures-ok {ℓ} :
    {A : Type ℓ} (P : A → Type 0) (m : Result A) (a : A) → Ensures m P → m ≡ ok a → P a
Ensures-ok P (ok x) a h e = let same : x ≡ a = cc e in subst P same h
Ensures-ok P (err f) a h e = absurd (cc e)

pub Returns-Ensures {ℓ} :
    {A : Type ℓ} (P Q : A → Type 0) (m : Result A)
    → Returns m P
    → Ensures m Q
    → Returns m (λ a. P a × Q a)
Returns-Ensures P Q (ok a) h k = (h, k)
Returns-Ensures P Q (err e) h k = elim h [ ]

pub Returns-weaken {ℓ} : {A : Type ℓ} (P : A → Type 0) (m : Result A) → Returns m P → Ensures m P
Returns-weaken P (ok a) h = h
Returns-weaken P (err e) h = tt
