-- ===== src/DataBlock/Header.antt =====
-- `Serialize` and `DeserializeFromBuffer` of the block header.
use tiny_dbms.Base.{ℕ, ◌+◌, ◌≤◌, ◌≡◌, refl, ◌∙◌, List, arith, length, Result, ok, ◌>>=◌}
use tiny_dbms.Memory.Words.{IsInt, int_bytes, length-int_bytes}
use tiny_dbms.Memory.Buffer.{
  Buffer, slice, patch, load_int, store_int, store_int_ok, load_int_at, length-patch,
  slice-patch_self, slice-patch_above, slice-patch_below,
}
use tiny_dbms.DataBlock.{DataBlock, serialize, deserialize_from_buffer}
use tiny_dbms.DataBlock.Layout.{Holds, image, length-le-image}

-- Sixteen bytes hold four ints.
module _ (m : Buffer) (roomy : 16 ≤ length m) (p q r s : ℕ) where
  abbrev m1 : Buffer
  m1 = patch m 0 (int_bytes p)

  abbrev m2 : Buffer
  m2 = patch m1 4 (int_bytes q)

  abbrev m3 : Buffer
  m3 = patch m2 8 (int_bytes r)

  abbrev four : Buffer
  four = patch m3 12 (int_bytes s)

  length1 : length m1 ≡ length m
  length1 = length-patch m 0 (int_bytes p) (omega (arith, length-int_bytes p))

  length2 : length m2 ≡ length m
  length2 = length-patch m1 4 (int_bytes q) (omega (arith, length-int_bytes q, length1)) ∙ length1

  length3 : length m3 ≡ length m
  length3 = length-patch m2 8 (int_bytes r) (omega (arith, length-int_bytes r, length2)) ∙ length2

  length-four : length four ≡ length m
  length-four =
      length-patch m3 12 (int_bytes s) (omega (arith, length-int_bytes s, length3)) ∙ length3

  four-above : (i n : ℕ) → 16 ≤ i → slice four i n ≡ slice m i n
  four-above i n h =
      slice-patch_above m3 12 (int_bytes s) i n (omega (arith, length-int_bytes s))
      ∙ slice-patch_above m2 8 (int_bytes r) i n (omega (arith, length-int_bytes r))
      ∙ slice-patch_above m1 4 (int_bytes q) i n (omega (arith, length-int_bytes q))
      ∙ slice-patch_above m 0 (int_bytes p) i n (omega (arith, length-int_bytes p))

  four_reads :
      (slice four 0 4 ≡ int_bytes p)
      × (slice four 4 4 ≡ int_bytes q)
      × (slice four 8 4 ≡ int_bytes r)
      × (slice four 12 4 ≡ int_bytes s)
  four_reads = (
    slice-patch_below m3 12 (int_bytes s) 0 4 (omega arith)
        ∙ slice-patch_below m2 8 (int_bytes r) 0 4 (omega arith)
        ∙ slice-patch_below m1 4 (int_bytes q) 0 4 (omega arith)
        ∙ self m 0 p (omega arith),
    slice-patch_below m3 12 (int_bytes s) 4 4 (omega arith)
        ∙ slice-patch_below m2 8 (int_bytes r) 4 4 (omega arith)
        ∙ self m1 4 q (omega (arith, length1)),
    slice-patch_below m3 12 (int_bytes s) 8 4 (omega arith) ∙ self m2 8 r (omega (arith, length2)),
    self m3 12 s (omega (arith, length3)),
  )
    where
      self :
          (k : Buffer) (i v : ℕ)
          → i + 4 ≤ length k
          → slice (patch k i (int_bytes v)) i 4 ≡ int_bytes v
      self k i v h =
          rw (length-int_bytes v) at
            (slice-patch_self k i (int_bytes v) (omega (arith, length-int_bytes v)))

  -- The four writes in a row, and the four reads.
  store_four :
      {A : Type 0} (k : Buffer → Result A)
      → (store_int m 0 p >>= λ a.
          store_int a 4 q >>= λ c. store_int c 8 r >>= λ d. store_int d 12 s >>= k)
        ≡ k four
  store_four k = rw (
    store_int_ok m 0 p (omega arith),
    store_int_ok m1 4 q (omega (arith, length1)),
    store_int_ok m2 8 r (omega (arith, length2)),
    store_int_ok m3 12 s (omega (arith, length3)),
  )

  module _ (hp : IsInt p) (hq : IsInt q) (hr : IsInt r) (hs : IsInt s) where
    load_four :
        (load_int four 0 ≡ ok p)
        × (load_int four 4 ≡ ok q)
        × (load_int four 8 ≡ ok r)
        × (load_int four 12 ≡ ok s)
    load_four =
        let (a, c, d, e) = four_reads in
        (
          load_int_at four 0 p hp (omega (arith, length-four)) a,
          load_int_at four 4 q hq (omega (arith, length-four)) c,
          load_int_at four 8 r hr (omega (arith, length-four)) d,
          load_int_at four 12 s hs (omega (arith, length-four)) e,
        )

-- `Serialize` writes the header of a well-formed block and keeps its records and its link, and
-- `DeserializeFromBuffer` reads the four header fields back from its bytes into any block.
pub serialize-Holds :
    (b : DataBlock) (rs : List (List ℕ))
    → Holds b rs
    → (c : DataBlock) × (serialize b ≡ ok c)
      × Holds c rs
      × ((d : DataBlock) → deserialize_from_buffer d c.memory ≡ ok (record c { memory = d.memory }))
      × (c.next_block_pointer ≡ b.next_block_pointer)
unfolding serialize deserialize_from_buffer
serialize-Holds b rs holds =
    let roomy : 16 ≤ length b.memory = omega (arith, holds.sized) in
    let size =
      length-four b.memory roomy b.field_length b.field_data_nums b.last_record_start_address
        b.next_block_pointer in
    let above =
      four-above b.memory roomy b.field_length b.field_data_nums b.last_record_start_address
        b.next_block_pointer in
    let loads =
      load_four b.memory roomy b.field_length b.field_data_nums b.last_record_start_address
        b.next_block_pointer holds.length_int
        (omega (arith, holds.counted, holds.packed, length-le-image rs holds.nonempty))
        (omega (arith, holds.packed)) holds.next_int in
    (
      record b {
        memory =
            four b.memory roomy b.field_length b.field_data_nums b.last_record_start_address
              b.next_block_pointer;
      },
      store_four b.memory roomy b.field_length b.field_data_nums b.last_record_start_address
          b.next_block_pointer (λ m. ok (record b { memory = m })),
      record {
        sized = size ∙ holds.sized;
        length_int = holds.length_int;
        next_int = holds.next_int;
        counted = holds.counted;
        nonempty = holds.nonempty;
        above_header = holds.above_header;
        packed = holds.packed;
        stored =
            above b.last_record_start_address (length (image rs)) holds.above_header ∙ holds.stored;
      },
      λ d. rw (loads.0, loads.1, loads.2, loads.3) refl,
      refl,
    )
