-- ===== src/Scan/Spec.antt =====
-- What the scans of a data block are to return: the block as a list of values of one column.
use tiny_dbms.Base.{
  ◌%◌, ◌^◌, ltb, leb, ◌==◌, ◌&&◌, not, refl, arith, ℕ, ◌+◌, ◌≡◌, Bool, List, [], ◌∷◌, if◌then◌else◌,
  ok,
}
use tiny_dbms.Value.{ValueType, Value}
use tiny_dbms.Value.Encode.{IsStored, encoding}
use tiny_dbms.Value.Compare.{Floats, compare_values}
use tiny_dbms.DataBlock.{DataBlock}
use tiny_dbms.DataBlock.Layout.{Holds}
use tiny_dbms.Scan.{Tagged, selects}
use tiny_dbms.Sql.{Comparator, bigger, less, equal, not_equal}
use tiny_dbms.Memory.Words.{int_mod}

-- The records are the bytes of the values.
abbrev pub Matches : ValueType → List Value → List (List ℕ) → Type 0
Matches t [] [] = Unit {0}
Matches t [] (r ∷ rs) = ⊥
Matches t (v ∷ vs) [] = ⊥
Matches t (v ∷ vs) (r ∷ rs) = ((s : IsStored t v) × (r ≡ encoding s)) × Matches t vs rs

-- A block that stores these values of type `t`, the newest first.
abbrev pub Stores : DataBlock → ValueType → List Value → Type 0
Stores b t vs = (rs : List (List ℕ)) × Holds b rs × Matches t vs rs

-- The values with the numbers from `tag` on.
abbrev pub numbered : ℕ → List Value → List Tagged
numbered tag [] = []
numbered tag (v ∷ vs) = (tag, v) ∷ numbered (tag + 1) vs

-- Those that a test keeps, with their numbers.
abbrev pub kept : (Value → Bool) → ℕ → List Value → List Tagged
kept p tag [] = []
kept p tag (v ∷ vs) = let rest = kept p (tag + 1) vs in if p v then (tag, v) ∷ rest else rest

-- The results of a comparison, an int, that a comparator lets pass: a positive one for `>`, a negative
-- one for `<`, zero for `=`, and any but zero for `!=`.
abbrev pub passes : Comparator → ℕ → Bool
passes bigger n = ltb 0 (n % int_mod) && ltb (n % int_mod) (2 ^ 31)
passes less n = leb (2 ^ 31) (n % int_mod)
passes equal n = n == 0
passes not_equal n = not (n == 0)

pub selects-passes : (comparator : Comparator) (n : ℕ) → selects comparator n ≡ passes comparator n
unfolding selects
selects-passes bigger n = ground arith
selects-passes less n = ground arith
selects-passes equal n = refl
selects-passes not_equal n = refl

-- The comparison of two values that can be compared, as the scans use it.
pub com_result : Floats → Value → Value → ℕ
com_result fl a b = elim (compare_values fl a b) [ ok n ↦ n | _ ↦ 0 ]

abbrev pub Comparable : Floats → Value → Value → Type 0
Comparable fl a b = (n : ℕ) × (compare_values fl a b ≡ ok n)

pub com_result_lem :
    (fl : Floats) (a b : Value) → Comparable fl a b → compare_values fl a b ≡ ok (com_result fl a b)
unfolding com_result
com_result_lem fl a b (n, e) = ground (arith, e)
