-- ===== src/Base/Results.antt =====
-- Chains of fallible steps. `none` is a failed assertion or an access outside an array, after
-- which the program is not defined.
use mathlib.Core.Path.{◌≡◌, refl}
use mathlib.Core.Option
use mathlib.Core.Option.{Option, none, some}
use mathlib.Core.Bool.{Bool, true, false}
use cpu_sim.Base.Tests.{if◌then◌else◌}
use mathlib.Core.Logic.{◌⊎◌, inl, inr}

infixl 5 ◌>>=◌
abbrev pub ◌>>=◌ {ℓ κ} : {A : Type ℓ} {B : Type κ} → Option A → (A → Option B) → Option B
none >>= f = none
some a >>= f = f a

pub >>=-eq-some {ℓ κ} :
    {A : Type ℓ} {B : Type κ} (o : Option A) (f : A → Option B) {b : B}
    → (o >>= f) ≡ some b
    → (a : A) × (o ≡ some a) × (f a ≡ some b)
>>=-eq-some none f h = cc
>>=-eq-some (some a) f h = (a, refl, h)

-- Which branch a result comes from.
pub if-either {ℓ} :
    {A : Type ℓ} (b : Bool) {x y z : A}
    → (if b then x else y) ≡ z
    → ((b ≡ true) × (x ≡ z)) ⊎ ((b ≡ false) × (y ≡ z))
if-either true h = inl (refl, h)
if-either false h = inr (refl, h)

-- Two continuations that agree on the result that is there.
pub >>=-agree {ℓ κ} :
    {A : Type ℓ} {B : Type κ} (o : Option A) {f g : A → Option B}
    → ((a : A) → o ≡ some a → f a ≡ g a)
    → (o >>= f) ≡ (o >>= g)
>>=-agree none h = refl
>>=-agree (some a) h = h a refl

pub if-agree {ℓ} :
    {A : Type ℓ} (b : Bool) {x x' : A} (y : A)
    → (b ≡ true → x ≡ x')
    → (if b then x else y) ≡ (if b then x' else y)
if-agree true y h = h refl
if-agree false y h = refl

abbrev pub value_or {ℓ} : {A : Type ℓ} → A → Option A → A
value_or d none = d
value_or d (some a) = a

abbrev pub is_some {ℓ} : {A : Type ℓ} → Option A → Bool
is_some none = false
is_some (some a) = true

-- A computation that gives a value.
abbrev pub IsDefined {ℓ} : {A : Type ℓ} → Option A → Type ℓ
IsDefined {A = A} o = (a : A) × (o ≡ some a)

pub if-IsDefined {ℓ} :
    {A : Type ℓ} (b : Bool) {x y : Option A}
    → (b ≡ true → IsDefined x)
    → (b ≡ false → IsDefined y)
    → IsDefined (if b then x else y)
if-IsDefined true h k = h refl
if-IsDefined false h k = k refl

pub >>=-IsDefined {ℓ κ} :
    {A : Type ℓ} {B : Type κ} (o : Option A) (f : A → Option B)
    → IsDefined o
    → ((a : A) → o ≡ some a → IsDefined (f a))
    → IsDefined (o >>= f)
>>=-IsDefined none f (a, e) h = cc
>>=-IsDefined (some a) f d h = h a refl

pub map-IsDefined {ℓ κ} :
    {A : Type ℓ} {B : Type κ} (f : A → B) (o : Option A) → IsDefined o → IsDefined (Option.map f o)
map-IsDefined f none (a, e) = cc
map-IsDefined f (some a) d = (f a, refl)

pub IsDefined-map {ℓ κ} :
    {A : Type ℓ} {B : Type κ} (f : A → B) (o : Option A) → IsDefined (Option.map f o) → IsDefined o
IsDefined-map f none (b, e) = cc
IsDefined-map f (some a) d = (a, refl)

-- Two chains whose steps agree under a view.
-- A map commutes with a chain when it does at the value of the first.
pub map->>=-agree {ℓ κ μ ν} :
    {A : Type ℓ} {B : Type κ} {A' : Type μ} {B' : Type ν} (f : A → A') (g : B → B')
    (k : A → Option B) (k' : A' → Option B') (o : Option A)
    → ((a : A) → o ≡ some a → Option.map g (k a) ≡ k' (f a))
    → Option.map g (o >>= k) ≡ (Option.map f o >>= k')
map->>=-agree f g k k' none h = refl
map->>=-agree f g k k' (some a) h = h a refl

pub map->>= {ℓ κ μ ν} :
    {A : Type ℓ} {B : Type κ} {A' : Type μ} {B' : Type ν} (f : A → A') (g : B → B')
    (k : A → Option B) (k' : A' → Option B')
    → ((a : A) → Option.map g (k a) ≡ k' (f a))
    → (o : Option A) {p : Option A'} → Option.map f o ≡ p
    → Option.map g (o >>= k) ≡ (p >>= k')
map->>= f g k k' e none h = rw (← h) refl
map->>= f g k k' e (some a) h = rw (← h) (e a)
