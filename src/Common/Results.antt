-- ===== src/Common/Results.antt =====
-- How a call of the C++ code ends.
use mathlib.Core.Option.{Option, none, some}
use mathlib.Core.Path.{◌≡◌, refl, ap}

-- `refused` is `return false`, with what the caller can still see; `thrown` is an exception of
-- the standard library; `fault` is undefined behaviour, such as an access out of bounds.
pub data Outcome {ℓ κ} (E : Type κ) (A : Type ℓ) : Type (ℓ ⊔ κ) where
  ok : A → Outcome E A
  refused : E → Outcome E A
  thrown fault : Outcome E A

infixl 5 ◌>>=◌ ◌>>◌
abbrev pub ◌>>=◌ {ℓ κ μ} :
    {E : Type κ} {A : Type ℓ} {B : Type μ} → Outcome E A → (A → Outcome E B) → Outcome E B
ok a >>= f = f a
refused e >>= f = refused e
thrown >>= f = thrown
fault >>= f = fault

abbrev pub ◌>>◌ {ℓ κ μ} :
    {E : Type κ} {A : Type ℓ} {B : Type μ} → Outcome E A → Outcome E B → Outcome E B
m >> k = m >>= λ _. k

abbrev pub or_fault {ℓ κ} : {E : Type κ} {A : Type ℓ} → Option A → Outcome E A
or_fault none = fault
or_fault (some a) = ok a

abbrev pub or_thrown {ℓ κ} : {E : Type κ} {A : Type ℓ} → Option A → Outcome E A
or_thrown none = thrown
or_thrown (some a) = ok a

abbrev pub or_refused {ℓ κ} : {E : Type κ} {A : Type ℓ} → E → Option A → Outcome E A
or_refused e none = refused e
or_refused e (some a) = ok a

pub >>=_assoc {ℓ κ μ ν} :
    {E : Type κ} {A : Type ℓ} {B : Type μ} {C : Type ν} (o : Outcome E A) (f : A → Outcome E B)
    (g : B → Outcome E C)
    → (o >>= λ a. f a >>= g) ≡ ((o >>= f) >>= g)
>>=_assoc (ok a) f g = refl
>>=_assoc (refused e) f g = refl
>>=_assoc thrown f g = refl
>>=_assoc fault f g = refl

pub >>=_ok {ℓ κ} : {E : Type κ} {A : Type ℓ} (o : Outcome E A) → (o >>= ok) ≡ o
>>=_ok (ok a) = refl
>>=_ok (refused e) = refl
>>=_ok thrown = refl
>>=_ok fault = refl

-- A property of what a call returns when it succeeds.
abbrev pub Leaves {ℓ κ} : {E : Type κ} {A : Type ℓ} → (A → Type 0) → Outcome E A → Type 0
Leaves P (ok a) = P a
Leaves P _ = Unit {0}

pub bind_ok {ℓ κ μ} :
    {E : Type ℓ} {A : Type κ} {B : Type μ} {o : Outcome E A} {a : A} (f : A → Outcome E B)
    → o ≡ ok a
    → (o >>= f) ≡ f a
bind_ok f e = ap (λ o. o >>= f) e

pub Leaves-bind {ℓ κ μ} :
    {E : Type κ} {A : Type ℓ} {B : Type μ} (Q : A → Type 0) (P : B → Type 0) (o : Outcome E A)
    (f : A → Outcome E B)
    → Leaves Q o
    → ((a : A) → Q a → Leaves P (f a))
    → Leaves P (o >>= f)
Leaves-bind Q P (ok a) f h k = k a h
Leaves-bind Q P (refused e) f h k = tt
Leaves-bind Q P thrown f h k = tt
Leaves-bind Q P fault f h k = tt

pub Leaves-any {ℓ κ} : {E : Type κ} {A : Type ℓ} (o : Outcome E A) → Leaves (λ _. Unit {0}) o
Leaves-any (ok a) = tt
Leaves-any (refused e) = tt
Leaves-any thrown = tt
Leaves-any fault = tt

pub Leaves-weaken {ℓ κ} :
    {E : Type κ} {A : Type ℓ} (P Q : A → Type 0) (o : Outcome E A)
    → Leaves P o
    → ((a : A) → P a → Q a)
    → Leaves Q o
Leaves-weaken P Q (ok a) h k = k a h
Leaves-weaken P Q (refused e) h k = tt
Leaves-weaken P Q thrown h k = tt
Leaves-weaken P Q fault h k = tt

-- Two calls that end alike.
abbrev pub Both {ℓ ℓ' κ κ'} :
    {E : Type κ} {E' : Type κ'} {A : Type ℓ} {B : Type ℓ'}
    → (E → E' → Type 0)
    → (A → B → Type 0)
    → Outcome E A
    → Outcome E' B
    → Type 0
Both Q P (ok a) (ok b) = P a b
Both Q P (refused e) (refused e') = Q e e'
Both Q P thrown thrown = Unit {0}
Both Q P fault fault = Unit {0}
Both Q P _ _ = ⊥

-- Calls that end alike end in one of four ways.
pub Both-rec {ℓ ℓ' κ κ'} :
    {E : Type κ} {E' : Type κ'} {A : Type ℓ} {B : Type ℓ'} (Q : E → E' → Type 0)
    (P : A → B → Type 0) (M : Outcome E A → Outcome E' B → Type 0)
    → ((a : A) (b : B) → P a b → M (ok a) (ok b))
    → ((e : E) (e' : E') → Q e e' → M (refused e) (refused e'))
    → M thrown thrown
    → M fault fault
    → (o : Outcome E A) (o' : Outcome E' B) → Both Q P o o'
    → M o o'
Both-rec Q P M at_ok at_refused at_thrown at_fault (ok a) (ok b) h = at_ok a b h
Both-rec Q P M at_ok at_refused at_thrown at_fault (refused e) (refused e') h = at_refused e e' h
Both-rec Q P M at_ok at_refused at_thrown at_fault thrown thrown h = at_thrown
Both-rec Q P M at_ok at_refused at_thrown at_fault fault fault h = at_fault
Both-rec Q P M at_ok at_refused at_thrown at_fault (ok a) (refused e) h = absurd h
Both-rec Q P M at_ok at_refused at_thrown at_fault (ok a) thrown h = absurd h
Both-rec Q P M at_ok at_refused at_thrown at_fault (ok a) fault h = absurd h
Both-rec Q P M at_ok at_refused at_thrown at_fault (refused e) (ok b) h = absurd h
Both-rec Q P M at_ok at_refused at_thrown at_fault (refused e) thrown h = absurd h
Both-rec Q P M at_ok at_refused at_thrown at_fault (refused e) fault h = absurd h
Both-rec Q P M at_ok at_refused at_thrown at_fault thrown (ok b) h = absurd h
Both-rec Q P M at_ok at_refused at_thrown at_fault thrown (refused e) h = absurd h
Both-rec Q P M at_ok at_refused at_thrown at_fault thrown fault h = absurd h
Both-rec Q P M at_ok at_refused at_thrown at_fault fault (ok b) h = absurd h
Both-rec Q P M at_ok at_refused at_thrown at_fault fault (refused e) h = absurd h
Both-rec Q P M at_ok at_refused at_thrown at_fault fault thrown h = absurd h

pub Both-bind {ℓ ℓ' κ κ' μ μ'} :
    {E : Type κ} {E' : Type κ'} {A : Type ℓ} {B : Type ℓ'} {A' : Type μ} {B' : Type μ'}
    (Q : E → E' → Type 0) (P : A → B → Type 0) (P' : A' → B' → Type 0) (o : Outcome E A)
    (o' : Outcome E' B) (f : A → Outcome E A') (f' : B → Outcome E' B')
    → Both Q P o o'
    → ((a : A) (b : B) → P a b → Both Q P' (f a) (f' b))
    → Both Q P' (o >>= f) (o' >>= f')
Both-bind Q P P' o o' f f' h next =
    Both-rec Q P (λ o o'. Both Q P' (o >>= f) (o' >>= f')) next (λ e e' q. q) tt tt o o' h
