-- ===== src/TableBlock/Placed.antt =====
-- Which tables a block of table headers stores.
use tiny_dbms.Base.{
  ℕ, suc, ◌+◌, ◌≤◌, ◌≡◌, refl, ap, ◌∙◌, List, [], ◌∷◌, ◌++◌, arith, length, get_elem?, some, ok,
  map, All,
}
use tiny_dbms.Memory.Words.{IsSize, IsInt}
use tiny_dbms.Table.RoundTrip.{deserialize-table_bytes}
use tiny_dbms.Memory.Buffer.{Buffer, patch, slice-patch_self, slice-patch_above, length-patch}
use tiny_dbms.Memory.Reader.{Stands}
use tiny_dbms.DataBlock.{block_size}
use tiny_dbms.Table.{ColumnTable, deserialize}
use tiny_dbms.Table.Bytes.{IsTable, table_bytes}

-- The tables stand one below the other, from `top` down, each at its address.
abbrev pub Placed : Buffer → ℕ → List ℕ → List ColumnTable → Type 0
Placed memory top [] [] = Unit {0}
Placed memory top [] (t ∷ ts) = ⊥
Placed memory top (a ∷ ads) [] = ⊥
Placed memory top (a ∷ ads) (t ∷ ts) =
    (a + length (table_bytes t) ≡ top)
    × (Stands memory a (table_bytes t) × (IsTable t × Placed memory a ads ts))

-- Where the lowest table begins.
abbrev pub bottom : ℕ → List ℕ → ℕ
bottom top [] = top
bottom top (a ∷ ads) = bottom a ads

pub bottom-le :
    (memory : Buffer) (top : ℕ) (ads : List ℕ) (ts : List ColumnTable)
    → Placed memory top ads ts
    → bottom top ads ≤ top
bottom-le memory top [] ts p = omega arith
bottom-le memory top (a ∷ ads) [] p = absurd p
bottom-le memory top (a ∷ ads) (t ∷ ts) (e, (s, (w, p))) =
    omega (arith, e, bottom-le memory a ads ts p)

pub length-Placed :
    (memory : Buffer) (top : ℕ) (ads : List ℕ) (ts : List ColumnTable)
    → Placed memory top ads ts
    → length ads ≡ length ts
length-Placed memory top [] [] p = refl
length-Placed memory top [] (t ∷ ts) p = absurd p
length-Placed memory top (a ∷ ads) [] p = absurd p
length-Placed memory top (a ∷ ads) (t ∷ ts) (e, (s, (w, p))) =
    ap suc (length-Placed memory a ads ts p)

-- A write below the lowest table keeps the tables, and what it writes there is one more.
pub Placed-more :
    (memory : Buffer) (top : ℕ) (ads : List ℕ) (ts : List ColumnTable) (new : ℕ)
    (table : ColumnTable)
    → Placed memory top ads ts
    → IsTable table
    → new + length (table_bytes table) ≡ bottom top ads
    → top ≤ length memory
    → IsSize (length memory)
    → Placed (patch memory new (table_bytes table)) top (ads ++ (new ∷ [])) (ts ++ (table ∷ []))
Placed-more memory top [] [] new table p w e inside small =
    let bytes = table_bytes table in
    let size = length-patch memory new bytes (omega (arith, e, inside)) in
    (
      e,
      (
        record {
          same = slice-patch_self memory new bytes (omega (arith, e, inside));
          within = omega (arith, e, inside, size);
          small = omega (arith, size, small);
        },
        (w, tt),
      ),
    )
Placed-more memory top [] (t ∷ ts) new table p w e inside small = absurd p
Placed-more memory top (a ∷ ads) [] new table p w e inside small = absurd p
Placed-more memory top (a ∷ ads) (t ∷ ts) new table (here, (s, (w', p))) w e inside small =
    let bytes = table_bytes table in
    let low = bottom-le memory a ads ts p in
    let size = length-patch memory new bytes (omega (arith, here, e, low, inside)) in
    (
      here,
      (
        record {
          same =
              slice-patch_above memory new bytes a (length (table_bytes t)) (omega (arith, e, low))
              ∙ s.same;
          within = omega (arith, s.within, size);
          small = omega (arith, size, small);
        },
        (w', Placed-more memory a ads ts new table p w e (omega (arith, here, inside)) small),
      ),
    )

pub last-bottom :
    (top a : ℕ) (ads : List ℕ) → get_elem? (a ∷ ads) (length ads) ≡ some (bottom top (a ∷ ads))
last-bottom top a [] = refl
last-bottom top a (b ∷ ads) = last-bottom a b ads

pub bottom-snoc : (top : ℕ) (ads : List ℕ) (new : ℕ) → bottom top (ads ++ (new ∷ [])) ≡ new
bottom-snoc top [] new = refl
bottom-snoc top (a ∷ ads) new = bottom-snoc a ads new

-- A write in front of the lowest table keeps the tables.
pub Placed-kept :
    (memory : Buffer) (top : ℕ) (ads : List ℕ) (ts : List ColumnTable) (header : List ℕ)
    → Placed memory top ads ts
    → length header ≤ bottom top ads
    → top ≤ length memory
    → IsSize (length memory)
    → Placed (patch memory 0 header) top ads ts
Placed-kept memory top [] [] header p h inside small = tt
Placed-kept memory top [] (t ∷ ts) header p h inside small = absurd p
Placed-kept memory top (a ∷ ads) [] header p h inside small = absurd p
Placed-kept memory top (a ∷ ads) (t ∷ ts) header (e, (s, (w, p))) h inside small =
    let low = bottom-le memory a ads ts p in
    let size = length-patch memory 0 header (omega (arith, e, h, low, inside)) in
    (
      e,
      (
        record {
          same =
              slice-patch_above memory 0 header a (length (table_bytes t)) (omega (arith, h, low))
              ∙ s.same;
          within = omega (arith, s.within, size);
          small = omega (arith, size, small);
        },
        (w, Placed-kept memory a ads ts header p h (omega (arith, e, inside)) small),
      ),
    )

pub addresses-IsInt :
    (memory : Buffer) (top : ℕ) (ads : List ℕ) (ts : List ColumnTable)
    → Placed memory top ads ts
    → top ≤ block_size
    → All IsInt ads
addresses-IsInt memory top [] ts p h = tt
addresses-IsInt memory top (a ∷ ads) [] p h = absurd p
addresses-IsInt memory top (a ∷ ads) (t ∷ ts) (e, (s, (w, p))) h =
    (omega (arith, e, h), addresses-IsInt memory a ads ts p (omega (arith, e, h)))

-- Every stored table can be read back from its address.
pub All-read :
    (memory : Buffer) (top : ℕ) (ads : List ℕ) (ts : List ColumnTable)
    → Placed memory top ads ts
    → map (λ a. deserialize memory a) ads ≡ map ok ts
All-read memory top [] [] p = refl
All-read memory top [] (t ∷ ts) p = absurd p
All-read memory top (a ∷ ads) [] p = absurd p
All-read memory top (a ∷ ads) (t ∷ ts) (e, (s, (w, p))) =
    rw (deserialize-table_bytes t w memory a s, All-read memory a ads ts p) refl
