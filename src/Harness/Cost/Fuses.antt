-- ===== src/Harness/Cost/Fuses.antt =====
-- What the fuses guarantee (internal/harness/harness.go).
use ai_web_testing.Prelude.{
  ℕ, suc, ◌+◌, ◌≤◌, String, Bool, true, false, not, ◌||◌, Option, none, some, List, [], ◌∷◌, length,
  ◌≡◌, refl, ◌∙◌, sym, if◌then◌else◌, ◌==◌, Dict, lookup, insert, lookup-insert, eq_refl, ℤ, pos,
  negsuc, ◌+ℤ◌, wrap_int64, below, Result, ok, err, arith,
}
use ai_web_testing.Harness.Cost.{
  RunCostLimits, is_enabled, ActiveRun, new_active_run, is_blown, exceed, RunCostLimitError,
  cost_limit_error, checked, record_run_cost, or_zero_int, update_cost, add_call,
}

-- What a fuse that did not blow says: if the limit is set, the value is at most the limit.
abbrev pub IsWithin : ℤ → ℤ → Type 0
IsWithin limit value = is_blown limit value ≡ false

pub record IsWithinLimits (limits : RunCostLimits) (a : ActiveRun) : Type 0 where
  pub calls : IsWithin limits.max_model_calls (pos a.model_calls)
  pub tokens : IsWithin limits.max_total_tokens a.total_tokens
  pub bytes : IsWithin limits.max_transcript_bytes (pos a.transcript_bytes)

by_fuses :
    (calls tokens bytes : Bool) (error : RunCostLimitError)
    → (let limit : String =
          if calls
          then "model_calls"
          else if tokens
          then "total_tokens"
          else if bytes
          then "transcript_bytes"
          else "" in
        (if limit == "" then ok tt else err error) ≡ ok tt)
    → (calls ≡ false) × (tokens ≡ false) × (bytes ≡ false)
by_fuses true tokens bytes error h = cc
by_fuses false true bytes error h = cc
by_fuses false false true error h = cc
by_fuses false false false error h = (refl, refl, refl)

checked-IsWithinLimits :
    (limits : RunCostLimits) (a : ActiveRun) → checked limits a ≡ ok tt → IsWithinLimits limits a
unfolding exceed cost_limit_error
checked-IsWithinLimits limits a h =
    let (calls, tokens, bytes) =
      by_fuses (is_blown limits.max_model_calls (pos a.model_calls))
        (is_blown limits.max_total_tokens a.total_tokens)
        (is_blown limits.max_transcript_bytes (pos a.transcript_bytes)) _ h in
    record { calls = calls; tokens = tokens; bytes = bytes }

is_set : (k : ℕ) (b c : Bool) → not (below (pos (suc k)) 1) || b || c ≡ true
is_set k b c = ground arith

never_blown : (limit : ℤ) → is_blown limit (pos 0) ≡ false
never_blown (pos n) = ground arith
never_blown (negsuc n) = refl

below_limit :
    (limit : ℤ) (k m n : ℕ)
    → limit ≡ pos (suc k)
    → m ≡ n
    → is_blown limit (pos m) ≡ false
    → n ≤ suc k
below_limit limit k m n set same h =
    let h' : is_blown (pos (suc k)) (pos m) ≡ false = rw set at h in ground (arith, h', same)

module _ (limits : RunCostLimits) (run_id : String) where
  abbrev unless_blown :
      (Dict ActiveRun → Result RunCostLimitError (Dict ActiveRun))
      → Result RunCostLimitError (Unit {0}) × Dict ActiveRun
      → Result RunCostLimitError (Dict ActiveRun)
  unless_blown rest (ok done, active_runs) = rest active_runs
  unless_blown rest (err e, active_runs) = err e

  -- Model calls with their tokens, one after the other, up to the first that blows a fuse.
  unfoldable pub spend :
      List (Option ℤ) → Dict ActiveRun → Result RunCostLimitError (Dict ActiveRun)
  spend [] active_runs = ok active_runs
  spend (tokens ∷ later) active_runs =
      unless_blown (spend later) (record_run_cost limits run_id tokens active_runs)

  passed :
      (rest : Dict ActiveRun → Result RunCostLimitError (Dict ActiveRun))
      (r : Result RunCostLimitError (Unit {0}) × Dict ActiveRun) {last : Dict ActiveRun}
      → unless_blown rest r ≡ ok last
      → (r.0 ≡ ok tt) × (rest r.1 ≡ ok last)
  passed rest (ok done, active_runs) h = (refl, h)
  passed rest (err e, active_runs) h = cc

  abbrev with_call : Option ℤ → ActiveRun → ActiveRun
  with_call tokens a = update_cost 1 (or_zero_int tokens) a.transcript_bytes a

  one_call :
      (tokens : Option ℤ) (active_runs : Dict ActiveRun) (a : ActiveRun)
      → is_enabled limits ≡ true
      → lookup run_id active_runs ≡ some a
      → (record_run_cost limits run_id tokens active_runs).0 ≡ ok tt
      → ((record_run_cost limits run_id tokens active_runs).1
          ≡ insert run_id (with_call tokens a) active_runs)
        × IsWithinLimits limits (with_call tokens a)
  unfolding record_run_cost add_call
  one_call tokens active_runs a enabled found h = (
    rw (enabled, found) refl,
    checked-IsWithinLimits limits (with_call tokens a) (rw (enabled, found) at h),
  )

  abbrev added : Option ℤ → ℤ
  added none = pos 0
  added (some n) = n

  -- The int64 total of tokens after these calls, from `total` on.
  unfoldable pub tokens_of : ℤ → List (Option ℤ) → ℤ
  tokens_of total [] = total
  tokens_of total (tokens ∷ later) = tokens_of (wrap_int64 (total +ℤ added tokens)) later

  added-same : (tokens : Option ℤ) → or_zero_int tokens ≡ added tokens
  added-same none = refl
  added-same (some n) = refl

  -- An entry for the run with so many calls and so many tokens, within the limits.
  pub record HasSpent (calls : ℕ) (tokens : ℤ) (active_runs : Dict ActiveRun) : Type 0 where
    pub entry : ActiveRun
    pub found : lookup run_id active_runs ≡ some entry
    pub counted : entry.model_calls ≡ calls
    pub totalled : entry.total_tokens ≡ tokens
    pub within : IsWithinLimits limits entry

  spend-HasSpent :
      (tokens : List (Option ℤ)) (calls : ℕ) (start : ℤ) (active_runs last : Dict ActiveRun)
      → is_enabled limits ≡ true
      → HasSpent calls start active_runs
      → spend tokens active_runs ≡ ok last
      → (total : ℕ) → total ≡ length tokens + calls
      → HasSpent total (tokens_of start tokens) last
  unfolding spend tokens_of
  spend-HasSpent [] calls start active_runs last enabled before h total counted =
      let same : active_runs ≡ last = cc h in
      let equal : total ≡ calls = omega (arith, counted) in rw (equal, sym same) before
  spend-HasSpent (first ∷ later) calls start active_runs last enabled before h total counted =
      let (let_pass, rest) =
        passed (spend later) (record_run_cost limits run_id first active_runs) h in
      let (next, within) = one_call first active_runs before.entry enabled before.found let_pass in
      let reached : HasSpent (calls + 1) (wrap_int64 (start +ℤ added first))
          (insert run_id (with_call first before.entry) active_runs) =
        record {
          entry = with_call first before.entry;
          found =
              lookup-insert run_id run_id (with_call first before.entry) active_runs
              ∙ rw (eq_refl run_id);
          counted = omega (arith, before.counted);
          totalled = rw (before.totalled, added-same first);
          within = within;
        } in
      spend-HasSpent later (calls + 1) _ _ last enabled reached (rw next at rest) total
        (omega (arith, counted))

  -- If the limit on model calls is set, a fresh run whose model calls all pass the fuses has made at
  -- most that many. Its entry counts exactly these calls, its total of tokens is the sum of theirs,
  -- which wraps around as an int64, and both are within the limits that are set.
  pub spend-few_calls :
      (k : ℕ)
      → limits.max_model_calls ≡ pos (suc k)
      → (tokens : List (Option ℤ)) (active_runs last : Dict ActiveRun)
      → lookup run_id active_runs ≡ some new_active_run
      → spend tokens active_runs ≡ ok last
      → (length tokens ≤ suc k) × HasSpent (length tokens) (tokens_of (pos 0) tokens) last
  spend-few_calls k limit tokens active_runs last fresh h =
      let start : HasSpent 0 (pos 0) active_runs = record {
        entry = new_active_run;
        found = fresh;
        counted = refl;
        totalled = refl;
        within = record {
          calls = never_blown limits.max_model_calls;
          tokens = never_blown limits.max_total_tokens;
          bytes = never_blown limits.max_transcript_bytes;
        };
      } in
      let spent =
        spend-HasSpent tokens 0 (pos 0) active_runs last (rw limit (is_set k _ _)) start h
          (length tokens) (omega arith) in
      (
        below_limit limits.max_model_calls k spent.entry.model_calls (length tokens) limit
            spent.counted spent.within.calls,
        spent,
      )
