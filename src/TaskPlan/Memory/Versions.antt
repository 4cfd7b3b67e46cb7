-- ===== src/TaskPlan/Memory/Versions.antt =====
-- What holds of every version of every plan in the repository
-- (internal/taskplan/memory_repository.go).
use ai_web_testing.Prelude.{
  String, Bool, true, false, Option, none, some, List, [], ◌∷◌, ◌++◌, All, if◌then◌else◌, ◌==◌,
  eq_iff, ◌≡◌, refl, sym, insert, lookup-insert, ℤ, Keeps, arith,
}
use ai_web_testing.Prelude.Results.{OfOk}
use ai_web_testing.TaskPlan.Types.{Plan, superseded}
use ai_web_testing.TaskPlan.Memory.{
  MemoryRepository, versions, supersede_last, create_version, last_plan, current_of, get_current,
  replace_first, save_replaced, save,
}

All-append : {A : Type 0} (P : A → Type 0) (xs ys : List A) → All P xs → All P ys → All P (xs ++ ys)
All-append P [] ys hx hy = hy
All-append P (x ∷ xs) ys hx hy = (hx.0, All-append P xs ys hx.1 hy)

-- The versions after a write under one key.
pub versions-insert :
    (k j : String) (plans : List Plan) (r : MemoryRepository)
    → versions j (record r { plans = insert k plans r.plans })
      ≡ (if k == j then plans else versions j r)
unfolding versions
versions-insert k j plans r = ground (arith, lookup-insert k j plans r.plans)

abbrev pub AllVersions : (String → Plan → Type 0) → MemoryRepository → Type 0
AllVersions P r = (k : String) → All (P k) (versions k r)

module _ (P : String → Plan → Type 0) where
  write-AllVersions :
      (k : String) (plans : List Plan) (r : MemoryRepository)
      → All (P k) plans
      → AllVersions P r
      → AllVersions P (record r { plans = insert k plans r.plans })
  write-AllVersions k plans r new old j = rw (versions-insert k j plans r) (at_key (k == j) refl)
    where
      at_key : (b : Bool) → (k == j) ≡ b → All (P j) (if b then plans else versions j r)
      at_key true p = let q = (eq_iff k j).0 p in rw (sym q) new
      at_key false p = old j

  AllFound : String → Option (List Plan) → Type 0
  AllFound k none = Unit
  AllFound k (some plans) = All (P k) plans

  replace_first-AllFound :
      (k : String) (plan : Plan) (plans : List Plan)
      → P k plan
      → All (P k) plans
      → AllFound k (replace_first plan plans)
  unfolding replace_first AllFound
  replace_first-AllFound k plan [] new old = tt
  replace_first-AllFound k plan (first ∷ rest) new old =
      here (first.id == plan.id) (replace_first plan rest)
        (replace_first-AllFound k plan rest new old.1)
    where
      here :
          (b : Bool) (later : Option (List Plan))
          → AllFound k later
          → AllFound k (
              if b
              then some (plan ∷ rest)
              else elim later [ none ↦ none | some rest' ↦ some (first ∷ rest') ])
      here true later kept = (new, old.1)
      here false none kept = tt
      here false (some rest') kept = (old.0, kept)

  save_replaced-AllVersions :
      (replaced : Option (List Plan)) (plan : Plan) (r : MemoryRepository)
      → AllFound plan.run_id replaced
      → AllVersions P r
      → AllVersions P (save_replaced replaced plan r).1
  unfolding save_replaced AllFound
  save_replaced-AllVersions none plan r new old = old
  save_replaced-AllVersions (some plans) plan r new old =
      write-AllVersions plan.run_id plans r new old

  pub save-AllVersions : (plan : Plan) → P plan.run_id plan → Keeps (AllVersions P) (save plan)
  unfolding save
  save-AllVersions plan new = record {
    at = λ r old.
        save_replaced-AllVersions (replace_first plan (versions plan.run_id r)) plan r
          (replace_first-AllFound plan.run_id plan (versions plan.run_id r) new (old plan.run_id))
          old;
  }

  pub get_current-All :
      (k : String) (r : MemoryRepository) → AllVersions P r → OfOk (P k) (get_current k r).0
  unfolding get_current current_of last_plan OfOk
  get_current-All k r h = last_of (versions k r) (h k)
    where
      last_of : (plans : List Plan) → All (P k) plans → OfOk (P k) (current_of (last_plan plans))
      last_of [] h = tt
      last_of (plan ∷ []) h = h.0
      last_of (plan ∷ next ∷ rest) h = last_of (next ∷ rest) h.1

  module _
      (kept : (k : String) (plan : Plan)
        → P k plan
        → P k (record plan { status = superseded })) where
    supersede_last-All :
        (k : String) (plans : List Plan) → All (P k) plans → All (P k) (supersede_last plans)
    unfolding supersede_last
    supersede_last-All k [] h = tt
    supersede_last-All k (plan ∷ []) h = (kept k plan h.0, tt)
    supersede_last-All k (plan ∷ next ∷ rest) h = (h.0, supersede_last-All k (next ∷ rest) h.1)

    pub create_version-AllVersions :
        (plan : Plan)
        → ((version : ℤ) → P plan.run_id (record plan { version = version }))
        → Keeps (AllVersions P) (create_version plan)
    unfolding create_version
    create_version-AllVersions plan new = record {
      at = λ r old.
          write-AllVersions plan.run_id _ r
            (All-append (P plan.run_id) (supersede_last (versions plan.run_id r)) _
              (supersede_last-All plan.run_id (versions plan.run_id r) (old plan.run_id))
              (new _, tt))
            old;
    }
