-- ===== src/TaskPlan/Validate/Ids.antt =====
-- The pattern of step ids of internal/taskplan/service.go, written out character by character.
use Prim.Native.Char.{Char, code}
use ai_web_testing.Prelude.{
  ℕ, zero, suc, ◌≤◌, String, Bool, true, false, ◌&&◌, ◌≡◌, ◌⊎◌, refl, arith,
}
use ai_web_testing.TaskPlan.Rules.{matches_step_id, id_rest, is_letter, is_id_char}

-- A letter, and a character that an id may have after its first.
abbrev pub IsLetter : Char → Type 0
IsLetter c = (65 ≤ code c) × (code c ≤ 90) ⊎ (97 ≤ code c) × (code c ≤ 122)

abbrev pub IsIdChar : Char → Type 0
IsIdChar c = IsLetter c ⊎ (48 ≤ code c) × (code c ≤ 57) ⊎ (code c ≡ 95) ⊎ (code c ≡ 45)

-- At most `room` characters, all of them such.
abbrev pub AreIdChars : ℕ → String → Type 0
AreIdChars room String.[] = Unit
AreIdChars zero (String.◌∷◌ c s) = ⊥
AreIdChars (suc room) (String.◌∷◌ c s) = IsIdChar c × AreIdChars room s

-- A letter and at most 63 characters after it.
abbrev pub IsId : String → Type 0
IsId String.[] = ⊥
IsId (String.◌∷◌ c s) = IsLetter c × AreIdChars 63 s

both : (a b : Bool) → a && b ≡ true → (a ≡ true) × (b ≡ true)
both true true h = (refl, refl)
both true false h = absurd cc
both false b h = absurd cc

letter : (c : Char) → is_letter (code c) ≡ true → IsLetter c
letter c h = ground (arith, h)

id_char : (c : Char) → is_id_char (code c) ≡ true → IsIdChar c
id_char c h = ground (arith, h)

id_rest-AreIdChars : (room : ℕ) (s : String) → id_rest room s ≡ true → AreIdChars room s
unfolding id_rest
id_rest-AreIdChars room String.[] h = tt
id_rest-AreIdChars zero (String.◌∷◌ c s) h = absurd cc
id_rest-AreIdChars (suc room) (String.◌∷◌ c s) h =
    let (first, later) = both (is_id_char (code c)) (id_rest room s) h in
    (id_char c first, id_rest-AreIdChars room s later)

pub matches_step_id-IsId : (id : String) → matches_step_id id ≡ true → IsId id
unfolding matches_step_id
matches_step_id-IsId String.[] h = absurd cc
matches_step_id-IsId (String.◌∷◌ c s) h =
    let (first, later) = both (is_letter (code c)) (id_rest 63 s) h in
    (letter c first, id_rest-AreIdChars 63 s later)
