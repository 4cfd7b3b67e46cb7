-- ===== src/TaskPlan/Changes/Advances.antt =====
-- What an exploration does to each step of a plan (internal/taskplan/service.go).
use mathlib.Core.List.{append_assoc, append-nil}
use ai_web_testing.Prelude.{
  ◌+◌, ◌++◌, not, ◌&&◌, ◌||◌, ◌⊎◌, inl, inr, Bool-cases, All, length, length-append, lookup, String,
  Bool, true, false, ◌≡◌, refl, ◌∙◌, ap, ◌==◌, eq_iff, eq_refl, Option, none, some, List, [], ◌∷◌,
  ok, err, if◌then◌else◌, arith,
}
use ai_web_testing.Prelude.Results.{OfOk, OfOk-value, OfOk-err, OfOk-map}
use ai_web_testing.TaskPlan.Types.{
  Step, TargetBinding, EvidenceRef, Error, step_disappeared, is_grounded,
}
use ai_web_testing.TaskPlan.Contract.{Contract}
use ai_web_testing.TaskPlan.Window.{step_by_id}
use ai_web_testing.TaskPlan.Rules.{requires_target_binding}
use ai_web_testing.TaskPlan.Probe.{result_contains_step_evidence}
use ai_web_testing.TaskPlan.Changes.{
  Findings, is_member, keep_or, has_binding, set_step, ground_step, is_proved, ground_steps,
}

abbrev pub IsIn : String → List String → Type 0
IsIn s [] = ⊥
IsIn s (t ∷ ts) = (t ≡ s) ⊎ IsIn s ts

-- What an exploration has to have found before it grounds a step.
pub record Proves (c : Contract) (found : Findings) (step : Step) : Type 0 where
  pub acted :
      found.is_flow ≡ true
      → (step.action ≡ "click") ⊎ (step.action ≡ "input")
      → IsIn step.id found.grounded_actions
  pub evident :
      (result_contains_step_evidence c found.evidence step ≡ true)
      ⊎ IsIn step.id found.grounded_actions
  pub bound :
      requires_target_binding step.action ≡ true
      → (b : TargetBinding) × (lookup step.id found.target_bindings ≡ some b)

-- The step means what it meant; it is as it was, or the exploration has proved it and it is grounded;
-- its evidence gained references to the exploration, one for each attempt, and lost none; its target
-- binding is the old one or one that was found for it.
pub record Advances (c : Contract) (found : Findings) (old new : Step) : Type 0 where
  pub same_meaning : new ≡ record old {
    status = new.status;
    grounding_attempts = new.grounding_attempts;
    evidence = new.evidence;
    target_binding = new.target_binding;
  }
  pub changed : (new ≡ old) ⊎ (is_grounded new.status ≡ true) × Proves c found old
  pub gained : List EvidenceRef
  pub from_exploration : All (λ e. e ≡ found.reference) gained
  pub evidence : new.evidence ≡ old.evidence ++ gained
  pub attempts : new.grounding_attempts ≡ old.grounding_attempts + length gained
  pub binding :
      (new.target_binding ≡ old.target_binding)
      ⊎ ((b : TargetBinding) × (lookup old.id found.target_bindings ≡ some b)
          × (new.target_binding ≡ some b))

-- `step` with what an exploration writes taken from `last`
abbrev with_progress_of : Step → Step → Step
with_progress_of last step = record step {
  status = last.status;
  grounding_attempts = last.grounding_attempts;
  evidence = last.evidence;
  target_binding = last.target_binding;
}

is_member-IsIn : (s : String) (ss : List String) → is_member s ss ≡ true → IsIn s ss
is_member-IsIn s [] h = absurd (cc h)
is_member-IsIn s (t ∷ ts) h = elim (Bool-cases (t == s)) [
  | inl p ↦ inl (ground (arith, eq_iff t s, p))
  | inr p ↦ inr (is_member-IsIn s ts (rw p at h))
]

found_binding :
    (o : Option TargetBinding) → has_binding o ≡ true → (b : TargetBinding) × (o ≡ some b)
found_binding none h = absurd (cc h)
found_binding (some b) h = (b, refl)

kept_or :
    (o old : Option TargetBinding)
    → (keep_or o old ≡ old) ⊎ ((b : TargetBinding) × (o ≡ some b) × (keep_or o old ≡ some b))
kept_or none old = inl refl
kept_or (some b) old = inr (b, refl, refl)

-- The three tests of the loop.
three_tests :
    (flow click input acted evident needs bound : Bool)
    → not (flow && (click || input) && not acted)
        && not (not evident && not acted)
        && not (needs && not bound)
      ≡ true
    → (flow ≡ true → (click ≡ true) ⊎ (input ≡ true) → acted ≡ true)
      × ((evident ≡ true) ⊎ (acted ≡ true))
      × (needs ≡ true → bound ≡ true)
three_tests flow click input acted evident needs bound h =
    (λ p q. ground (arith, h, p, q), ground (arith, h), λ p. ground (arith, h, p))

module _ (c : Contract) (found : Findings) where
  is_proved-Proves : (step : Step) → is_proved c found step ≡ true → Proves c found step
  unfolding is_proved
  is_proved-Proves step h =
      let (acted, evident, bound) =
        three_tests found.is_flow (step.action == "click") (step.action == "input")
          (is_member step.id found.grounded_actions)
          (result_contains_step_evidence c found.evidence step)
          (requires_target_binding step.action) (has_binding (lookup step.id found.target_bindings))
          h in
      record {
        acted = λ flow action.
            is_member-IsIn step.id found.grounded_actions (acted flow (tests action));
        evident = elim evident [
          | inl p ↦ inl p
          | inr p ↦ inr (is_member-IsIn step.id found.grounded_actions p)
        ];
        bound = λ needs. found_binding _ (bound needs);
      }
    where
      tests :
          (step.action ≡ "click") ⊎ (step.action ≡ "input")
          → ((step.action == "click") ≡ true) ⊎ ((step.action == "input") ≡ true)
      tests (inl p) = inl (rw p)
      tests (inr p) = inr (rw p)

  stays : (step : Step) → Advances c found step step
  stays step = record {
    same_meaning = refl;
    changed = inl refl;
    gained = [];
    from_exploration = tt;
    evidence = rw append-nil;
    attempts = omega arith;
    binding = inl refl;
  }

  grounds : (step : Step) → Proves c found step → Advances c found step (ground_step found step)
  unfolding ground_step
  grounds step proved = record {
    same_meaning = refl;
    changed = inr (refl, proved);
    gained = found.reference ∷ [];
    from_exploration = (refl, tt);
    evidence = refl;
    attempts = refl;
    binding = kept_or (lookup step.id found.target_bindings) step.target_binding;
  }

  All-append :
      (xs ys : List EvidenceRef)
      → All (λ e. e ≡ found.reference) xs
      → All (λ e. e ≡ found.reference) ys
      → All (λ e. e ≡ found.reference) (xs ++ ys)
  All-append [] ys h k = k
  All-append (x ∷ xs) ys h k = (h.0, All-append xs ys h.1 k)

  Advances-trans :
      (a b d : Step) → Advances c found a b → Advances c found b d → Advances c found a d
  Advances-trans a b d ab bd = record {
    same_meaning = bd.same_meaning ∙ ap (with_progress_of d) ab.same_meaning;
    changed = changes ab.changed bd.changed;
    gained = ab.gained ++ bd.gained;
    from_exploration = All-append ab.gained bd.gained ab.from_exploration bd.from_exploration;
    evidence = bd.evidence ∙ rw ab.evidence (rw append_assoc);
    attempts = omega (arith, ab.attempts, bd.attempts, length-append ab.gained bd.gained);
    binding = binds ab.binding bd.binding;
  }
    where
      changes :
          (b ≡ a) ⊎ (is_grounded b.status ≡ true) × Proves c found a
          → (d ≡ b) ⊎ (is_grounded d.status ≡ true) × Proves c found b
          → (d ≡ a) ⊎ (is_grounded d.status ≡ true) × Proves c found a
      changes (inl p) (inl q) = inl (q ∙ p)
      changes (inl p) (inr (g, q)) = inr (g, rw p at q)
      changes (inr (g, p)) (inl q) = inr (rw q g, p)
      changes (inr (g, p)) (inr (g', q)) = inr (g', p)

      binds :
          (b.target_binding ≡ a.target_binding)
            ⊎ ((x : TargetBinding) × (lookup a.id found.target_bindings ≡ some x)
                × (b.target_binding ≡ some x))
          → (d.target_binding ≡ b.target_binding)
            ⊎ ((x : TargetBinding) × (lookup b.id found.target_bindings ≡ some x)
                × (d.target_binding ≡ some x))
          → (d.target_binding ≡ a.target_binding)
            ⊎ ((x : TargetBinding) × (lookup a.id found.target_bindings ≡ some x)
                × (d.target_binding ≡ some x))
      binds p (inr (x, q, r)) = inr (x, rw (ap (λ step. step.id) ab.same_meaning) at q, r)
      binds (inl p) (inl q) = inl (q ∙ p)
      binds (inr (x, p, r)) (inl q) = inr (x, p, q ∙ r)

  abbrev pub AllAdvance : List Step → List Step → Type 0
  AllAdvance [] [] = Unit
  AllAdvance (old ∷ olds) (new ∷ news) = Advances c found old new × AllAdvance olds news
  AllAdvance _ _ = ⊥

  all_stay : (steps : List Step) → AllAdvance steps steps
  all_stay [] = tt
  all_stay (step ∷ steps) = (stays step, all_stay steps)

  all_then : (xs ys zs : List Step) → AllAdvance xs ys → AllAdvance ys zs → AllAdvance xs zs
  all_then [] [] [] h k = tt
  all_then (x ∷ xs) (y ∷ ys) (z ∷ zs) h k =
      (Advances-trans x y z h.0 k.0, all_then xs ys zs h.1 k.1)
  all_then [] (y ∷ ys) zs h k = absurd h
  all_then (x ∷ xs) [] zs h k = absurd h
  all_then [] [] (z ∷ zs) h k = absurd k
  all_then (x ∷ xs) (y ∷ ys) [] h k = absurd k

step_by_id-id :
    (steps : List Step) (id : String) (step : Step) → step_by_id steps id ≡ some step → step.id ≡ id
unfolding step_by_id
step_by_id-id [] id step p = cc
step_by_id-id (first ∷ steps) id step p =
    ground (arith, eq_iff first.id id, step_by_id-id steps id step, p)

set_step-AllAdvance :
    (c : Contract) (found : Findings) (id : String) (steps : List Step) (step : Step)
    → Proves c found step
    → step_by_id steps id ≡ some step
    → AllAdvance c found steps (set_step (ground_step found step) steps)
unfolding step_by_id set_step ground_step
set_step-AllAdvance c found id [] step proved p = tt
set_step-AllAdvance c found id (first ∷ steps) step proved p =
    by_test (first.id == id) refl p (set_step-AllAdvance c found id steps step proved)
  where
    by_test :
        (b : Bool)
        → (first.id == id) ≡ b
        → (if b then some first else step_by_id steps id) ≡ some step
        → (step_by_id steps id ≡ some step
            → AllAdvance c found steps (set_step (ground_step found step) steps))
        → AllAdvance c found (first ∷ steps) (set_step (ground_step found step) (first ∷ steps))
    by_test true q r rest =
        let same : step ≡ first = cc in
        rw same (
          rw (eq_refl first.id) (grounds c found first (rw same at proved), all_stay c found steps))
    by_test false q r rest =
        let same = step_by_id-id steps id step r in rw same (rw q (stays c found first, rest r))

module _ (c : Contract) (found : Findings) where
  pub ground_steps-AllAdvance :
      (pending steps : List Step)
      → OfOk (AllAdvance c found steps) (ground_steps c found pending steps)
  unfolding ground_steps
  ground_steps-AllAdvance [] steps = OfOk-value Error _ _ (all_stay c found steps)
  ground_steps-AllAdvance (next ∷ rest) steps =
      at_step (step_by_id steps next.id) refl
        (λ step. ground_steps-AllAdvance rest (set_step (ground_step found step) steps))
    where
      grounded_or_not :
          (step : Step) (b : Bool)
          → is_proved c found step ≡ b
          → step_by_id steps next.id ≡ some step
          → OfOk
              (AllAdvance c found (set_step (ground_step found step) steps))
              (ground_steps c found rest (set_step (ground_step found step) steps))
          → OfOk (AllAdvance c found steps) (elim b [
            | true ↦ ground_steps c found rest (set_step (ground_step found step) steps)
            | false ↦ ok steps
          ])
      grounded_or_not step true proved p later =
          OfOk-map _ _ _
            (λ steps' h.
              all_then c found steps _ steps'
                (set_step-AllAdvance c found next.id steps step
                  (is_proved-Proves c found step proved) p)
                h)
            later
      grounded_or_not step false proved p later = OfOk-value Error _ _ (all_stay c found steps)

      at_step :
          (o : Option Step)
          → step_by_id steps next.id ≡ o
          → ((step : Step)
              → OfOk
                  (AllAdvance c found (set_step (ground_step found step) steps))
                  (ground_steps c found rest (set_step (ground_step found step) steps)))
          → OfOk (AllAdvance c found steps) (elim o [
            | none ↦ err (step_disappeared next.id)
            | some step ↦ elim (is_proved c found step) [
              | true ↦ ground_steps c found rest (set_step (ground_step found step) steps)
              | false ↦ ok steps
            ]
          ])
      at_step none p later = OfOk-err _ _
      at_step (some step) p later =
          grounded_or_not step (is_proved c found step) refl p (later step)
