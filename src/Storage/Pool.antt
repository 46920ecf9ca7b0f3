-- ===== src/Storage/Pool.antt =====
-- The slots of include/storage/memory/block_slot.h, and the pool that hands out free ones:
-- buffer_pool.cpp and easy_replacer.cpp. A slot is named by its place in the array.
use tiny_dbms.Base.{
  ℕ, zero, suc, Bool, true, false, not, List, [], ◌∷◌, ◌==◌, if◌then◌else◌, get_elem?, replicate,
  Option, none, some, Result, ok, raise, fault, no_memory_space, ◌>>=◌, ◌=str=◌, ◌&&◌, ◌↔◌, ◌≡◌,
  arith, str_eq→eq, str_eq_refl,
}
use tiny_dbms.Memory.Words.{add_int, lt_int}
use tiny_dbms.Memory.Buffer.{Buffer}
use tiny_dbms.StdMap.{Key, string_before}
use tiny_dbms.DataBlock.{block_size}

-- A std::shared_mutex: free, held by a number of readers, or by a writer.
pub data Lock : Type 0 where
  free : Lock
  shared : ℕ → Lock
  exclusive : Lock

pub record SlotSign : Type 0 where
  pub db_name : List ℕ
  pub table_name : List ℕ
  pub block_offset : ℕ

-- The constructor leaves in_use and user_amount uninitialised.
pub record BlockSlot : Type 0 where
  pub memory : Buffer
  pub in_use : Option Bool
  pub user_amount : Option ℕ
  pub lock : Lock

-- No constructor sets no_space_failure_times.
pub record BufferPool : Type 0 where
  pub slots : List BlockSlot
  pub slots_read_list : List ℕ
  pub no_space_failure_times : Option ℕ

-- Reading a member that may be uninitialised.
abbrev pub known : {A : Type 0} → Option A → Result A
known none = fault
known (some a) = ok a

unfoldable pub clear : BlockSlot → BlockSlot
clear slot = record slot { memory = replicate block_size 0 }

-- The slot that a pointer points to, and a change of it.
unfoldable pub slot_at : List BlockSlot → ℕ → Result BlockSlot
slot_at slots i = elim (get_elem? slots i) [ none ↦ fault | some slot ↦ ok slot ]

unfoldable pub set_slot : List BlockSlot → ℕ → BlockSlot → List BlockSlot
set_slot [] i slot = []
set_slot (s ∷ slots) zero slot = slot ∷ slots
set_slot (s ∷ slots) (suc i) slot = s ∷ set_slot slots i slot

unfoldable pub first_free : List BlockSlot → ℕ → Result (Option ℕ)
first_free [] i = ok none
first_free (slot ∷ slots) i =
    let rest = first_free slots (suc i) in
    do used ← known slot.in_use; if used then rest else ok (some i)

-- Only the first occurrence is erased.
unfoldable pub erase_first : ℕ → List ℕ → List ℕ
erase_first i [] = []
erase_first i (j ∷ js) = let rest = erase_first i js in if i == j then js else j ∷ rest

unfoldable pub read_one : ℕ → List ℕ → List ℕ
read_one slot slots_read_list = slot ∷ erase_first slot slots_read_list

-- An unused slot in the list is erased from it, after which the loop goes on with the erased
-- element's iterator: undefined behaviour. No slot is, when all are in use.
unfoldable pub get_free_slots : List BlockSlot → List ℕ → Result (List ℕ)
get_free_slots slots [] = ok []
get_free_slots slots (i ∷ is) = do
  slot ← slot_at slots i
  let rest = get_free_slots slots is
  used ← known slot.in_use
  if used then rest else fault

-- The pool, and the slot if there is a free one. The twentieth failure in a row throws.
unfoldable pub get_free_slot : BufferPool → Result (BufferPool × Option ℕ)
get_free_slot pool = do
  found ← first_free pool.slots 0
  elim found [
    | some i ↦ ok (
      record pool {
        slots_read_list = read_one i pool.slots_read_list;
        no_space_failure_times = some 0;
      },
      some i,
    )
    | none ↦ do
      failures ← known pool.no_space_failure_times
      let times = add_int failures 1
      if not (lt_int times 20)
          then raise no_memory_space
          else (get_free_slots pool.slots pool.slots_read_list >>= λ freed.
              ok (record pool { no_space_failure_times = some times }, none))
  ]

unfoldable pub release_slot : BlockSlot → BlockSlot
release_slot slot = record slot { in_use = some false; user_amount = some 0 }

abbrev pub same_sign : SlotSign → SlotSign → Bool
same_sign a b =
    (a.db_name =str= b.db_name)
    && ((a.table_name =str= b.table_name) && (a.block_offset == b.block_offset))

-- `SlotSign::operator<`.
unfoldable pub sign_before : SlotSign → SlotSign → Bool
sign_before a b =
    if string_before a.db_name b.db_name
    then true
    else if string_before b.db_name a.db_name
    then false
    else if string_before a.table_name b.table_name
    then true
    else if string_before b.table_name a.table_name
    then false
    else lt_int a.block_offset b.block_offset

and_true : (p q : Bool) → (p && q) ≡ true → (p ≡ true) × (q ≡ true)
and_true p q h = (ground arith, ground arith)

same_sign_eq : (a b : SlotSign) → same_sign a b ≡ true → a ≡ b
same_sign_eq a b h =
    let (p, rest) = and_true _ _ h in
    let (q, r) = and_true _ _ rest in
    let e1 = str_eq→eq a.db_name b.db_name p in
    let e2 = str_eq→eq a.table_name b.table_name q in
    let e3 : a.block_offset ≡ b.block_offset = ground arith in
    λ i. record { db_name = e1 i; table_name = e2 i; block_offset = e3 i }

pub same_sign_refl : (a : SlotSign) → same_sign a a ≡ true
same_sign_refl a = ground (arith, str_eq_refl a.db_name, str_eq_refl a.table_name)

pub same_sign_iff : (a b : SlotSign) → (same_sign a b ≡ true) ↔ (a ≡ b)
same_sign_iff a b = (same_sign_eq a b, λ h. rw h (same_sign_refl b))

instance abbrev pub sign_key : Key SlotSign
sign_key = record { same = same_sign; before = sign_before; same_iff = same_sign_iff }
