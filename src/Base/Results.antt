-- ===== src/Base/Results.antt =====
-- What a call of the C++ code does: it returns, throws std::runtime_error (or another exception),
-- or runs into undefined behaviour such as a read past the end of an array, which is `fault`.
use mathlib.Core.Bool.{Bool, true, false}

-- One constructor for each kind of exception that the modelled code throws.
pub data Error : Type 0 where
  block_full address_not_in_block raw_serialized unsupported_type bad_length : Error
  not_a_number out_of_range sql_wrong unparsable fault_pattern unknown_type_name : Error
  invalid_suffix no_such_file no_memory_space null_block missing_column out_of_fuel no_ast : Error

pub data Result {ℓ} (A : Type ℓ) : Type ℓ where
  ok : A → Result A
  raise : Error → Result A
  fault : Result A

infixl 5 ◌>>=◌ ◌>>◌
abbrev pub ◌>>=◌ {ℓ κ} : {A : Type ℓ} {B : Type κ} → Result A → (A → Result B) → Result B
ok a >>= f = f a
raise e >>= f = raise e
fault >>= f = fault

abbrev pub ◌>>◌ {ℓ} : {B : Type ℓ} → Result (Unit {0}) → Result B → Result B
m >> k = m >>= λ _. k

-- The code's own check, which throws; and the language's, whose failure is undefined behaviour.
abbrev pub require : Bool → Error → Result (Unit {0})
require true e = ok tt
require false e = raise e

abbrev pub in_bounds : Bool → Result (Unit {0})
in_bounds true = ok tt
in_bounds false = fault
