-- ===== src/Prelude/Results.antt =====
-- Chains of checks that change no state: `do` over `Result`.
use ai_web_testing.Prelude.Actions.{Result, ok, err}
use ai_web_testing.Prelude.Tests.{if◌then◌else◌}
use mathlib.Core.Bool.{Bool, true, false}
use mathlib.Core.Path.{◌≡◌, refl}

infixl 10 ◌>>=◌ ◌>>◌
abbrev pub ◌>>=◌ {ℓ} : {E A B : Type ℓ} → Result E A → (A → Result E B) → Result E B
ok a >>= f = f a
err e >>= f = err e

abbrev pub ◌>>◌ {ℓ} : {E A B : Type ℓ} → Result E A → Result E B → Result E B
m >> n = m >>= λ _. n

-- `if test { return ..., errors.New(...) }`
abbrev pub reject_if : {E : Type 0} → Bool → E → Result E (Unit {0})
reject_if test e = if test then err e else ok tt

pub bind-ok {ℓ} :
    {E A B : Type ℓ} (m : Result E A) (f : A → Result E B) {b : B}
    → (m >>= f) ≡ ok b
    → (a : A) × (m ≡ ok a) × (f a ≡ ok b)
bind-ok (ok a) f h = (a, refl, h)
bind-ok (err e) f h = cc

-- What holds of the value of a result, if it has one.
unfoldable pub OfOk {ℓ} : {E A : Type ℓ} → (A → Type ℓ) → Result E A → Type ℓ
OfOk P (ok a) = P a
OfOk P (err e) = Unit

pub OfOk-value {ℓ} :
    (E : Type ℓ) {A : Type ℓ} (P : A → Type ℓ) (a : A) → P a → OfOk {E = E} P (ok a)
OfOk-value E P a h = unfold OfOk in h

pub OfOk-err {ℓ} : {E A : Type ℓ} (P : A → Type ℓ) (e : E) → OfOk P (err e)
OfOk-err P e = unfold OfOk in tt

pub OfOk-bind {ℓ} :
    {E A B : Type ℓ} (P : B → Type ℓ) (m : Result E A) (f : A → Result E B)
    → ((a : A) → OfOk P (f a))
    → OfOk P (m >>= f)
unfolding OfOk
OfOk-bind P (ok a) f rest = rest a
OfOk-bind P (err e) f rest = tt

pub OfOk-if {ℓ} :
    {E A : Type ℓ} (P : A → Type ℓ) (b : Bool) (x y : Result E A)
    → OfOk P x
    → OfOk P y
    → OfOk P (if b then x else y)
unfolding OfOk
OfOk-if P true x y hx hy = hx
OfOk-if P false x y hx hy = hy

pub OfOk-ok {ℓ} :
    {E A : Type ℓ} (P : A → Type ℓ) (r : Result E A) {a : A} → OfOk P r → r ≡ ok a → P a
unfolding OfOk
OfOk-ok P (ok b) {a} h p = let same : a ≡ b = cc in rw same h
OfOk-ok P (err e) h p = cc

pub OfOk-map {ℓ} :
    {E A : Type ℓ} (P Q : A → Type ℓ) (r : Result E A) → ((a : A) → P a → Q a) → OfOk P r → OfOk Q r
unfolding OfOk
OfOk-map P Q (ok a) f h = f a h
OfOk-map P Q (err e) f h = tt

pub OfOk-bind_with {ℓ} :
    {E A B : Type ℓ} (Q : A → Type ℓ) (P : B → Type ℓ) (m : Result E A) (f : A → Result E B)
    → OfOk Q m
    → ((a : A) → Q a → OfOk P (f a))
    → OfOk P (m >>= f)
unfolding OfOk
OfOk-bind_with Q P (ok a) f h rest = rest a h
OfOk-bind_with Q P (err e) f h rest = tt

pub ruleset of_ok_rules = (OfOk-bind, OfOk-if, OfOk-value, OfOk-err)
