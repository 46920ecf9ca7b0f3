-- ===== src/Value/Compare/Order.antt =====
-- The order that `Compare` gives to INT values.
use tiny_dbms.Base.{◌≤◌, ◌∙◌, ℕ, ◌+◌, ◌%◌, ◌^◌, ◌<◌, ◌≡◌, refl, arith, ◌==◌, ok}
use tiny_dbms.Memory.Words.{IsInt, int_mod, lt_int, sub_int}
use tiny_dbms.Value.{of_int}
use tiny_dbms.Value.Compare.{Floats, compare_values, difference}

-- An int on a scale that starts at the least of them.
abbrev pub height : ℕ → ℕ
height n = (n + 2 ^ 31) % int_mod

sign_lem :
    (a b : ℕ)
    → IsInt a
    → IsInt b
    → height a < height b + 2 ^ 31
    → height b ≤ height a + 2 ^ 31
    → (lt_int (sub_int a b) 0 ≡ lt_int a b)
      × (lt_int 0 (sub_int a b) ≡ lt_int b a)
      × ((sub_int a b == 0) ≡ (a == b))
sign_lem a b ha hb h k = (ground arith, ground arith, ground arith)

module _ (fl : Floats) (a b : ℕ) (ha : IsInt a) (hb : IsInt b) where
  compare_int : compare_values fl (of_int a) (of_int b) ≡ difference a b
  unfolding compare_values of_int
  compare_int = refl

  difference_fits :
      height a < height b + 2 ^ 31
      → height b ≤ height a + 2 ^ 31
      → difference a b ≡ ok (sub_int a b)
  unfolding difference
  difference_fits h k = ground arith

  -- Two INT values whose difference is an int compare as the ints do: the result of `Compare` is
  -- negative, positive or zero exactly when the first is less than, greater than or equal to the second.
  pub compare_int_sign :
      height a < height b + 2 ^ 31
      → height b ≤ height a + 2 ^ 31
      → (n : ℕ) × (compare_values fl (of_int a) (of_int b) ≡ ok n)
        × (lt_int n 0 ≡ lt_int a b)
        × (lt_int 0 n ≡ lt_int b a)
        × ((n == 0) ≡ (a == b))
  compare_int_sign h k =
      let (lower, upper, same) = sign_lem a b ha hb h k in
      (sub_int a b, compare_int ∙ difference_fits h k, lower, upper, same)
