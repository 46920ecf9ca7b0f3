-- ===== src/DataBlock/Delete.antt =====
-- `DeleteData` and `CheckDataExist` on blocks of records of one length.
use tiny_dbms.Base.{
  ℕ, ◌+◌, ◌-◌, ◌*◌, ◌%◌, ◌^◌, ◌≤◌, ◌<◌, ◌≡◌, ◌∙◌, List, [], ◌∷◌, arith, length, length-append, All,
  ok, raise, ◌==◌, false, address_not_in_block,
}
use native.Mathlib.Nat.{mod-eq_of_lt, mul-add-mod_self_right}
use tiny_dbms.Memory.Words.{sub_int, add_int, lt_int, int_mod}
use tiny_dbms.DataBlock.{DataBlock, block_size, check_data_exist, delete_data, magnitude}
use tiny_dbms.DataBlock.Layout.{Holds, image}

length-image_uniform :
    (n : ℕ) (rs : List (List ℕ)) → All (λ r. length r ≡ n) rs → length (image rs) ≡ length rs * n
length-image_uniform n [] h = omega arith
length-image_uniform n (r ∷ rs) h =
    grind (arith, length-append r (image rs), length-image_uniform n rs h.1)

-- The remainder that the check takes for the record number `k`, counted from the end of the block.
one_over : (k n : ℕ) → 2 ≤ n → (k * n + 1) % n ≡ 1
one_over k n h = mul-add-mod_self_right k n 1 ∙ mod-eq_of_lt (omega arith)

reached :
    (p x : ℕ)
    → p < 4097
    → x ≤ p
    → lt_int (block_size - x) (sub_int block_size (p % int_mod)) ≡ false
reached p x h k = ground arith

zero_test : (n : ℕ) → 0 < n → (n == 0) ≡ false
zero_test n h = ground arith

distance : (x : ℕ) → x < 4097 → magnitude (add_int (sub_int block_size (block_size - x)) 1) ≡ x + 1
distance x h = ground arith

magnitude-small : (n : ℕ) → n < 2 ^ 31 → magnitude n ≡ n
magnitude-small n h = ground arith

module _ (b : DataBlock) (rs : List (List ℕ)) (holds : Holds b rs)
    (uniform : All (λ r. length r ≡ b.field_length) rs) (k : ℕ) (there : k ≤ length rs) where
  total : length (image rs) ≡ length rs * b.field_length
  total = length-image_uniform b.field_length rs uniform

  below_total : k * b.field_length ≤ length (image rs)
  below_total = grind (arith, total)

  abbrev back : ℕ
  back = k * b.field_length

  check_back :
      2 ≤ b.field_length
      → b.field_length < 2 ^ 31
      → check_data_exist b (block_size - back) ≡ ok false
  unfolding check_data_exist
  check_back h small = rw (
    reached (b.field_length * b.field_data_nums) back
        (grind (arith, total, holds.packed, holds.counted)) (grind (arith, total, holds.counted)),
    zero_test b.field_length (omega arith),
    distance back (omega (arith, below_total, holds.packed)),
    magnitude-small b.field_length small,
    one_over k b.field_length h,
  )

-- `DeleteData` refuses every record of a block whose records are all `field_length` bytes long, for
-- any length but 1: the test of `CheckDataExist` adds 1 to a multiple of the length.
pub delete_data_refuses :
    (b : DataBlock) (rs : List (List ℕ)) (k : ℕ)
    → Holds b rs
    → All (λ r. length r ≡ b.field_length) rs
    → 2 ≤ b.field_length
    → k ≤ length rs
    → 0 < k
    → delete_data b (block_size - k * b.field_length) ≡ raise address_not_in_block
unfolding delete_data
delete_data_refuses b rs k holds uniform h there pos = rw (
    check_back b rs holds uniform k there h (
      grind (
        arith,
        total b rs holds uniform k there,
        below_total b rs holds uniform k there,
        holds.packed,
      )))
