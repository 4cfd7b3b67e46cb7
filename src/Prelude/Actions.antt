-- ===== src/Prelude/Actions.antt =====
-- A Go method that changes its receiver and may return an error: what was written before the error
-- stays written, so the state comes back beside the error too.
use mathlib.Core.Path.{◌≡◌, refl}
use mathlib.Core.Bool.{Bool, true, false}
use ai_web_testing.Prelude.Tests.{if◌then◌else◌}

pub data Result {ℓ} (E A : Type ℓ) : Type ℓ where
  ok : A → Result E A
  err : E → Result E A

abbrev pub Action {ℓ} : Type ℓ → Type ℓ → Type ℓ → Type ℓ
Action S E A = S → Result E A × S

module _ {ℓ} {S E A : Type ℓ} where
  abbrev pub return : A → Action S E A
  return a s = (ok a, s)

  abbrev pub fail : E → Action S E A
  fail e s = (err e, s)

  abbrev pub lift : Result E A → Action S E A
  lift r s = (r, s)

module _ {ℓ} {S E A B : Type ℓ} where
  abbrev pub proceed : (A → Action S E B) → Result E A → S → Result E B × S
  proceed f (ok a) s = f a s
  proceed f (err e) s = (err e, s)

  infixl 10 ◌>>=◌ ◌>>◌
  unfoldable pub ◌>>=◌ : Action S E A → (A → Action S E B) → Action S E B
  ◌>>=◌ m f s = let (r, s') = m s in proceed f r s'

  abbrev pub ◌>>◌ : Action S E A → Action S E B → Action S E B
  m >> n = m >>= λ _. n

-- `if err := ...; err != nil { return fmt.Errorf("...: %w", err) }`
abbrev pub wrap {ℓ} : {S E A : Type ℓ} → (E → E) → Action S E A → Action S E A
wrap {S} {E} {A} w m s = let (r, s') = m s in (relabel r, s')
  where
    relabel : Result E A → Result E A
    relabel (ok a) = ok a
    relabel (err e) = err (w e)

-- A method whose errors become those of another.
abbrev pub relabelled {ℓ} : {S E F A : Type ℓ} → (E → F) → Action S E A → Action S F A
relabelled {S} {E} {F} {A} label m s = let (r, s') = m s in (relabel r, s')
  where
    relabel : Result E A → Result F A
    relabel (ok a) = ok a
    relabel (err e) = err (label e)

-- A method whose error the caller looks at.
abbrev pub attempt {ℓ} : {S E F A : Type ℓ} → Action S E A → Action S F (Result E A)
attempt m s = let (r, s') = m s in (ok r, s')

-- `P` is an invariant of the method: whatever the method returns, a state that satisfies `P` is left
-- in one that does.
pub record Keeps {ℓ} {S E A : Type ℓ} (P : S → Type ℓ) (method : Action S E A) : Type ℓ where
  pub at : (s : S) → P s → P (method s).1

module _ {ℓ} {S E A : Type ℓ} {P : S → Type ℓ} where
  pub Keeps-return : (value : A) → Keeps {E = E} P (return value)
  Keeps-return value = record { at = λ s before. before }

  pub Keeps-fail : (error : E) → Keeps {A = A} P (fail error)
  Keeps-fail error = record { at = λ s before. before }

  pub Keeps-if :
      (test : Bool) (yes_branch no_branch : Action S E A)
      → (test ≡ false → Keeps P no_branch)
      → (test ≡ true → Keeps P yes_branch)
      → Keeps P (if test then yes_branch else no_branch)
  Keeps-if false _ _ on_false on_true = on_false refl
  Keeps-if true _ _ on_false on_true = on_true refl

  pub Keeps-wrap :
      (label : E → E) (method : Action S E A) → Keeps P method → Keeps P (wrap label method)
  Keeps-wrap label method kept = record { at = λ s before. kept.at s before }

  pub Keeps-lift : (r : Result E A) → Keeps P (lift r)
  Keeps-lift r = record { at = λ s before. before }

  pub Keeps-attempt :
      {F : Type ℓ} (method : Action S E A) → Keeps P method → Keeps {E = F} P (attempt method)
  Keeps-attempt method kept = record { at = λ s before. kept.at s before }

  pub Keeps-relabelled :
      {F : Type ℓ} (label : E → F) (method : Action S E A)
      → Keeps P method
      → Keeps P (relabelled label method)
  Keeps-relabelled label method kept = record { at = λ s before. kept.at s before }

-- The rest of a method runs only after a value.
module _ {ℓ} {S E A B : Type ℓ} {P : S → Type ℓ} (rest : A → Action S E B) where
  Keeps-proceed :
      ((a : A) → Keeps P (rest a)) → (r : Result E A) (s : S) → P s → P (proceed rest r s).1
  Keeps-proceed then_kept (err e) s before = before
  Keeps-proceed then_kept (ok a) s before = (then_kept a).at s before

pub Keeps-bind {ℓ} :
    {S E A B : Type ℓ} {P : S → Type ℓ} (first : Action S E A) (rest : A → Action S E B)
    → Keeps P first
    → ((a : A) → Keeps P (rest a))
    → Keeps P (first >>= rest)
unfolding ◌>>=◌
Keeps-bind first rest first_kept then_kept = record {
  at = λ s before. Keeps-proceed rest then_kept (first s).0 (first s).1 (first_kept.at s before);
}

pub ruleset keeps_rules = (
  Keeps-bind, Keeps-if, Keeps-wrap, Keeps-fail, Keeps-return, Keeps-lift, Keeps-attempt,
  Keeps-relabelled,
)

-- From a state that satisfies `P` the method leaves one that satisfies `Q`, whatever it returns.
pub record Leads {ℓ} {S E A : Type ℓ} (P Q : S → Type ℓ) (method : Action S E A) : Type ℓ where
  pub at : (s : S) → P s → Q (method s).1

module _ {ℓ} {S E A B : Type ℓ} {P Q : S → Type ℓ} where
  Leads-proceed :
      (rest : A → Action S E B)
      → ((a : A) → Leads P Q (rest a))
      → ((s : S) → P s → Q s)
      → (r : Result E A) (s : S) → P s
      → Q (proceed rest r s).1
  Leads-proceed rest then_leads weaker (ok a) s before = (then_leads a).at s before
  Leads-proceed rest then_leads weaker (err e) s before = weaker s before

  -- a first part that keeps what the rest needs
  pub Leads-bind :
      (first : Action S E A) (rest : A → Action S E B)
      → Keeps P first
      → ((a : A) → Leads P Q (rest a))
      → ((s : S) → P s → Q s)
      → Leads P Q (first >>= rest)
  unfolding ◌>>=◌
  Leads-bind first rest kept then_leads weaker = record {
    at =
        λ s before. Leads-proceed rest then_leads weaker (first s).0 (first s).1 (kept.at s before);
  }

  -- a first part that leads there, and a rest that stays
  pub Leads-bind-Keeps :
      (first : Action S E A) (rest : A → Action S E B)
      → Leads P Q first
      → ((a : A) → Keeps Q (rest a))
      → Leads P Q (first >>= rest)
  unfolding ◌>>=◌
  Leads-bind-Keeps first rest leads then_kept = record {
    at = λ s before. Keeps-proceed rest then_kept (first s).0 (first s).1 (leads.at s before);
  }
