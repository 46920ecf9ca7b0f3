-- ===== src/Memory/Words.antt =====
-- include/config.h takes `int` for lengths, amounts, enums and addresses. An `int` is its 32-bit
-- pattern, a number below 2^32, in two's complement; the source's platform is little-endian.
use tiny_dbms.Base.{
  ℕ, ◌+◌, ◌-◌, ◌*◌, ◌≤◌, ◌/◌, ◌%◌, ◌^◌, ◌<◌, ◌≡◌, refl, Bool, true, false, List, [], ◌∷◌, arith,
  ltb, if◌then◌else◌, length,
}

abbrev pub int_mod : ℕ
int_mod = 2 ^ 32

abbrev pub sizeof_int : ℕ
sizeof_int = 4

-- A bit pattern of an `int`, and one that stands for a number of at least 0.
abbrev pub IsInt : ℕ → Type 0
IsInt n = n < int_mod

abbrev pub IsSize : ℕ → Type 0
IsSize n = n < 2 ^ 31

-- `a + b` and `a - b` on `int`, with the wrap-around that the hardware gives.
abbrev pub add_int : ℕ → ℕ → ℕ
add_int a b = (a + b) % int_mod

abbrev pub sub_int : ℕ → ℕ → ℕ
sub_int a b = (a + int_mod - b) % int_mod

-- `a < 0`, and `a < b` on two `int`.
abbrev pub is_negative : ℕ → Bool
is_negative a = if ltb a (2 ^ 31) then false else true

abbrev pub lt_int : ℕ → ℕ → Bool
lt_int a b = ltb ((a + 2 ^ 31) % int_mod) ((b + 2 ^ 31) % int_mod)

-- An `int` beside a `size_t` in an expression is converted: it is sign-extended to 64 bits.
abbrev pub to_size_t : ℕ → ℕ
to_size_t a = if ltb a (2 ^ 31) then a else a + (2 ^ 64 - 2 ^ 32)

-- The rounds of `while (n > 0) { ...; n--; }`.
abbrev pub rounds : ℕ → ℕ
rounds n = if ltb n (2 ^ 31) then n else 0

-- What `memcpy(p, &n, sizeof(int))` stores, and what `memcpy(&n, p, sizeof(int))` reads back.
unfoldable pub int_bytes : ℕ → List ℕ
int_bytes n = n % 256 ∷ n / 256 % 256 ∷ n / 65536 % 256 ∷ n / 16777216 % 256 ∷ []

unfoldable pub int_of : List ℕ → ℕ
int_of (a ∷ b ∷ c ∷ d ∷ []) = a + 256 * b + 65536 * c + 16777216 * d
int_of _ = 0

pub length-int_bytes : (n : ℕ) → length (int_bytes n) ≡ 4
unfolding int_bytes
length-int_bytes n = refl

pub int_of-int_bytes : (n : ℕ) → IsInt n → int_of (int_bytes n) ≡ n
unfolding int_bytes int_of
int_of-int_bytes n h = omega arith

-- Sums and differences that stay in range are the plain ones.
pub sub_int-le : (a b : ℕ) → b ≤ a → IsInt a → sub_int a b ≡ a - b
sub_int-le a b h small = omega arith

pub add_int-lt : (a b : ℕ) → a + b < int_mod → add_int a b ≡ a + b
add_int-lt a b h = omega arith

pub is_negative-size : (n : ℕ) → IsSize n → is_negative n ≡ false
is_negative-size n h = ground arith
