-- ===== src/TaskPlan/Memory.antt =====
-- The plan repository in memory (internal/taskplan/memory_repository.go). clonePlan makes copies, so
-- plans are values.
pub mod Versions
use ai_web_testing.Prelude.{
  ◌+◌, String, Option, none, some, List, [], ◌∷◌, ◌++◌, length, if◌then◌else◌, ◌==◌, Dict, lookup,
  insert, pos, Result, ok, err, Action,
}
use ai_web_testing.TaskPlan.Types.{Plan, superseded, Error, not_found}

pub record MemoryRepository : Type 0 where
  pub plans : Dict (List Plan)

abbrev pub new_memory_repository : MemoryRepository
new_memory_repository = record { plans = [] }

-- `r.plans[runID]`
unfoldable pub versions : String → MemoryRepository → List Plan
versions run_id r = elim (lookup run_id r.plans) [ none ↦ [] | some plans ↦ plans ]

unfoldable pub supersede_last : List Plan → List Plan
supersede_last [] = []
supersede_last (plan ∷ []) = record plan { status = superseded } ∷ []
supersede_last (plan ∷ next ∷ rest) = plan ∷ supersede_last (next ∷ rest)

unfoldable pub create_version : Plan → Action MemoryRepository Error Plan
unfolding versions supersede_last
create_version plan r =
    let earlier = versions plan.run_id r in
    let plan' = record plan { version = pos (length earlier + 1) } in
    (
      ok plan',
      record r { plans = insert plan.run_id (supersede_last earlier ++ plan' ∷ []) r.plans },
    )

unfoldable pub last_plan : List Plan → Option Plan
last_plan [] = none
last_plan (plan ∷ []) = some plan
last_plan (plan ∷ next ∷ rest) = last_plan (next ∷ rest)

current_of : Option Plan → Result Error Plan
current_of none = err not_found
current_of (some plan) = ok plan

unfoldable pub get_current : String → Action MemoryRepository Error Plan
unfolding versions last_plan current_of
get_current run_id r = (current_of (last_plan (versions run_id r)), r)

-- the loop of Save: the first version with the id of the plan is replaced
unfoldable pub replace_first : Plan → List Plan → Option (List Plan)
replace_first plan [] = none
replace_first plan (old ∷ rest) =
    let later = replace_first plan rest in
    if old.id == plan.id
    then some (plan ∷ rest)
    else elim later [ none ↦ none | some rest' ↦ some (old ∷ rest') ]

save_replaced : Option (List Plan) → Plan → Action MemoryRepository Error (Unit {0})
save_replaced none plan r = (err not_found, r)
save_replaced (some plans) plan r = (ok tt, record r { plans = insert plan.run_id plans r.plans })

unfoldable pub save : Plan → Action MemoryRepository Error (Unit {0})
unfolding versions replace_first save_replaced
save plan r = save_replaced (replace_first plan (versions plan.run_id r)) plan r
