-- ===== src/Access/Grow.antt =====
-- A chain that gets one more value, and what else its file keeps.
use tiny_dbms.Base.{ℕ, ◌*◌, ◌≤◌, ◌≡◌, ◌≢◌, sym, List, [], ◌∷◌, arith, length, ok, some, All}
use tiny_dbms.Memory.Buffer.{Buffer}
use tiny_dbms.StdMap.{find, string_key}
use tiny_dbms.Value.{ValueType, Value}
use tiny_dbms.DataBlock.{block_size}
use tiny_dbms.Storage.Files.{Files, write_back_block, new_block_address}
use tiny_dbms.Storage.Pool.{BlockSlot}
use tiny_dbms.Storage.Disk.{StoredAt, Reachable, StoredAt-kept}
use tiny_dbms.Storage.Watcher.{finished, Step}
use tiny_dbms.Storage.Cycle.{at_rest, unused}
use tiny_dbms.Access.Chain.{Chain, ChainAt, next_address}

-- The value is put in front of the values of the last block, or alone into a new block behind it.
pub data Grown (v : Value) : Chain → Chain → Type 0 where
  in_last : (a : ℕ) (vs : List Value) → Grown v ((a, vs) ∷ []) ((a, v ∷ vs) ∷ [])
  in_new : (a n : ℕ) (vs : List Value) → Grown v ((a, vs) ∷ []) ((a, vs) ∷ (n, v ∷ []) ∷ [])
  further :
      (a : ℕ) (vs : List Value) {cs cs' : Chain}
      → Grown v cs cs'
      → Grown v ((a, vs) ∷ cs) ((a, vs) ∷ cs')

abbrev pub AbsentFrom : ℕ → Chain → Type 0
AbsentFrom x cs = All (λ c. x ≢ c.0) cs

-- No two blocks of the chain have the same address.
abbrev pub Distinct : Chain → Type 0
Distinct [] = Unit {0}
Distinct ((a, vs) ∷ cs) = AbsentFrom a cs × Distinct cs

-- A file of whole blocks, all reachable, with a place for one more.
pub record Aligned (file : Buffer) (n : ℕ) : Type 0 where
  pub blocks : length file ≡ n * block_size
  pub reachable : Reachable n

pub Aligned-address : (file : Buffer) (n : ℕ) → Aligned file n → new_block_address file ≡ n
unfolding new_block_address
Aligned-address file n a = rw a.blocks (ground (arith, a.reachable))

pub ChainAt-kept :
    (file : Buffer) (a : ℕ) (bytes : Buffer) (t : ValueType) (cs : Chain)
    → length bytes ≡ block_size
    → Reachable a
    → a * block_size ≤ length file
    → AbsentFrom a cs
    → ChainAt file t cs
    → ChainAt (write_back_block file a bytes) t cs
ChainAt-kept file a bytes t [] sized reachable inside absent c = tt
ChainAt-kept file a bytes t ((x, vs) ∷ cs) sized reachable inside (ne, absent)
      ((rs, stored, m), (linked, c)) =
    (
      (
        rs,
        StoredAt-kept file a bytes sized reachable inside x (next_address cs) rs (λ e. ne (sym e))
            stored,
        m,
      ),
      (linked, ChainAt-kept file a bytes t cs sized reachable inside absent c),
    )

-- What a run leaves behind that puts `v` into the chain `cs` of a file of `n` blocks.
pub record Inserted {ℓ} {A : Type ℓ} (run : Step A) (result : A) (install_path path : List ℕ)
    (rest : List BlockSlot) (files : Files) (file : Buffer) (t : ValueType) (v : Value) (cs : Chain)
    : Type ℓ where
  pub first : Buffer
  pub second : Buffer
  pub read_list : List ℕ
  pub times : ℕ
  pub files' : Files
  pub file' : Buffer
  pub chain' : Chain
  -- The run returns, and no block is lent any more.
  pub returns :
      run
      ≡ ok (
        at_rest (unused first ∷ unused second ∷ rest) read_list times files' install_path,
        finished result,
      )
  pub first_sized : length first ≡ block_size
  pub second_sized : length second ≡ block_size
  -- The file stores the chain with the value.
  pub present : find path files' ≡ some file'
  pub grown : Grown v cs chain'
  pub begins : next_address chain' ≡ next_address cs
  pub stands : ChainAt file' t chain'
  -- All other blocks of the file are as before, and so are the other files.
  pub kept :
      (x next : ℕ) (rs : List (List ℕ))
      → AbsentFrom x cs
      → StoredAt file x next rs
      → StoredAt file' x next rs
  pub others : (other : List ℕ) → other ≢ path → find other files' ≡ find other files
