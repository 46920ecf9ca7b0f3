-- ===== src/Storage/Disk.antt =====
-- Which blocks a data file stores, and what a write changes.
use tiny_dbms.Base.{
  ltb→lt, Bool-cases, ltb, false, append-nil, ℕ, ◌+◌, ◌-◌, ◌*◌, ◌^◌, ◌≤◌, ◌<◌, ◌≡◌, ◌≢◌, ap, ◌∙◌,
  sym, ◌⊎◌, inl, inr, List, ◌++◌, arith, length, length-append, take, drop, length-take,
  length-drop, ok,
}
use native.Mathlib.Nat.{mod-eq_of_lt}
use tiny_dbms.Memory.Words.{is_negative-size}
use tiny_dbms.Memory.Buffer.{Buffer, slice, slice_whole}
use tiny_dbms.Memory.Slices.{slice_front, slice_back, slice-take, slice-drop, take_all}
use tiny_dbms.DataBlock.{DataBlock, block_size, serialize, deserialize_from_buffer}
use tiny_dbms.DataBlock.Layout.{Holds}
use tiny_dbms.DataBlock.Header.{serialize-Holds}
use tiny_dbms.Storage.Files.{write_at, write_back_block}

-- A place for a block that an `int` position reaches.
abbrev pub Reachable : ℕ → Type 0
Reachable address = address * block_size + block_size < 2 ^ 31

abbrev pub block_bytes : Buffer → ℕ → Buffer
block_bytes file address = slice file (address * block_size) block_size

-- The block at this address stores these records and links to the block at `next`.
pub record StoredAt (file : Buffer) (address next : ℕ) (rs : List (List ℕ)) : Type 0 where
  pub reachable : Reachable address
  pub within : address * block_size + block_size ≤ length file
  pub parsed :
      (d : DataBlock)
      → (b : DataBlock) × (deserialize_from_buffer
            (record d { memory = block_bytes file address })
            (block_bytes file address)
          ≡ ok b)
        × Holds b rs
        × (b.next_block_pointer ≡ next)

lt_of_ne : (a b : ℕ) → a ≢ b → ltb a b ≡ false → b < a
lt_of_ne a b ne h = ground arith

apart :
    (a b : ℕ)
    → a ≢ b
    → (a * block_size + block_size ≤ b * block_size)
      ⊎ (b * block_size + block_size ≤ a * block_size)
apart a b ne = elim (Bool-cases (ltb a b)) [
  | inl h ↦ let less = ltb→lt a b h in inl (omega (arith, less))
  | inr h ↦ let less = lt_of_ne a b ne h in inr (omega (arith, less))
]

module _ (file : Buffer) (address : ℕ) (bytes : Buffer) (sized : length bytes ≡ block_size)
    (reachable : Reachable address) (inside : address * block_size ≤ length file) where
  abbrev position : ℕ
  position = address * block_size

  written :
      write_back_block file address bytes
      ≡ take position file ++ (bytes ++ drop (position + block_size) file)
  unfolding write_back_block write_at
  written =
      let gap : position - length file ≡ 0 = omega arith in
      rw (
        mod-eq_of_lt {n = position} {m = 2 ^ 32} (omega arith),
        is_negative-size position (omega arith),
        take_all bytes block_size (omega arith),
        sized,
        gap,
        append-nil (take position file),
      )

  length-front : length (take position file) ≡ position
  length-front = omega (arith, length-take position file)

  -- The new bytes stand in their place.
  pub block_bytes-written : block_bytes (write_back_block file address bytes) address ≡ bytes
  block_bytes-written = rw written (
      slice_back (take position file) (bytes ++ drop (position + block_size) file) position 0
        block_size (omega (arith, length-front))
      ∙ slice_front bytes (drop (position + block_size) file) 0 block_size (omega (arith, sized))
      ∙ ap (λ n. slice bytes 0 n) (sym sized)
      ∙ slice_whole bytes)

  pub block_bytes-kept :
      (other : ℕ)
      → (other ≢ address)
      → other * block_size + block_size ≤ length file
      → block_bytes (write_back_block file address bytes) other ≡ block_bytes file other
  block_bytes-kept other ne fits = rw written (elim (apart other address ne) [
    | inl below ↦
        slice_front (take position file) (bytes ++ drop (position + block_size) file)
          (other * block_size) block_size (omega (arith, below, length-front))
        ∙ slice-take file position (other * block_size) block_size (omega (arith, below))
    | inr above ↦
        let j = (other * block_size - (position + block_size)) + block_size in
        slice_back (take position file) (bytes ++ drop (position + block_size) file)
          (other * block_size) j block_size (omega (arith, above, length-front))
        ∙ slice_back bytes (drop (position + block_size) file) j (j - block_size) block_size
            (omega (arith, above, sized))
        ∙ slice-drop file (position + block_size) (j - block_size) (other * block_size) block_size
            (omega (arith, above))
  ])

  pub length-written :
      (length file ≤ length (write_back_block file address bytes))
      × (position + block_size ≤ length (write_back_block file address bytes))
  length-written = rw written (
      let total = length-append (take position file) (bytes ++ drop (position + block_size) file) in
      let back = length-append bytes (drop (position + block_size) file) in
      let rest = length-drop (position + block_size) file in
      (
        omega (arith, total, back, rest, length-front, sized),
        omega (arith, total, back, rest, length-front, sized),
      ))

  -- A write over a stored block keeps the length; one at the end adds a block.
  pub length-over :
      position + block_size ≤ length file
      → length (write_back_block file address bytes) ≡ length file
  length-over fits = rw written (
      let total = length-append (take position file) (bytes ++ drop (position + block_size) file) in
      let back = length-append bytes (drop (position + block_size) file) in
      omega (arith, total, back, length-drop (position + block_size) file, length-front, sized))

  pub length-behind :
      position ≡ length file → length (write_back_block file address bytes) ≡ position + block_size
  length-behind end = rw written (
      let total = length-append (take position file) (bytes ++ drop (position + block_size) file) in
      let back = length-append bytes (drop (position + block_size) file) in
      omega (arith, total, back, length-drop (position + block_size) file, length-front, sized))

  pub StoredAt-kept :
      (other next : ℕ) (rs : List (List ℕ))
      → other ≢ address
      → StoredAt file other next rs
      → StoredAt (write_back_block file address bytes) other next rs
  StoredAt-kept other next rs ne s = record {
    reachable = s.reachable;
    within = omega (arith, s.within, length-written.0);
    parsed = rw (block_bytes-kept other ne s.within) s.parsed;
  }

-- Writing back a well-formed block stores its records and its link at its address.
pub StoredAt-written :
    (file : Buffer) (address : ℕ) (b : DataBlock) (rs : List (List ℕ))
    → Holds b rs
    → Reachable address
    → address * block_size ≤ length file
    → (c : DataBlock) × (serialize b ≡ ok c)
      × (length c.memory ≡ block_size)
      × StoredAt (write_back_block file address c.memory) address b.next_block_pointer rs
StoredAt-written file address b rs holds reachable inside =
    let (c, done, kept, back, link) = serialize-Holds b rs holds in
    (
      c,
      done,
      kept.sized,
      record {
        reachable = reachable;
        within = (length-written file address c.memory kept.sized reachable inside).1;
        parsed =
            rw (block_bytes-written file address c.memory kept.sized reachable inside)
              (λ d. (c, back (record d { memory = c.memory }), kept, link));
      },
    )

pub StoredAt-next :
    (file : Buffer) (a m n : ℕ) (rs : List (List ℕ))
    → m ≡ n
    → StoredAt file a m rs
    → StoredAt file a n rs
StoredAt-next file a m n rs e st = rw (sym e) st
