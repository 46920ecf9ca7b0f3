-- ===== src/Memory/Buffer.antt =====
-- A `char*` buffer as the list of its bytes, and `memcpy` into and out of it. A copy that leaves
-- the buffer is undefined behaviour, `fault`.
use Prim.Native.Nat.add
use tiny_dbms.Base.{
  ℕ, zero, suc, ◌+◌, ◌≤◌, ◌≡◌, refl, ap, List, [], ◌∷◌, ◌++◌, arith, leb, le→leb, length,
  length-append, length-take, take, Result, ok, fault, ◌>>=◌, if◌then◌else◌,
}
use tiny_dbms.Memory.Words.{int_bytes, int_of, length-int_bytes, int_of-int_bytes, IsInt}

abbrev pub Buffer : Type 0
Buffer = List ℕ

module _ {ℓ} {A : Type ℓ} where
  -- The `n` elements from `i` on.
  unfoldable pub slice : List A → ℕ → ℕ → List A
  slice xs zero n = take n xs
  slice [] (suc i) n = []
  slice (x ∷ xs) (suc i) n = slice xs i n

  over : List A → List A → List A
  over xs [] = xs
  over [] (b ∷ bs) = b ∷ bs
  over (x ∷ xs) (b ∷ bs) = b ∷ over xs bs

  -- The elements from `i` on are overwritten by `bs`.
  unfoldable pub patch : List A → ℕ → List A → List A
  unfolding over
  patch xs zero bs = over xs bs
  patch [] (suc i) bs = []
  patch (x ∷ xs) (suc i) bs = x ∷ patch xs i bs

  take-over : (bs xs : List A) → length bs ≤ length xs → take (length bs) (over xs bs) ≡ bs
  unfolding over
  take-over [] xs h = refl
  take-over (b ∷ bs) [] h = elim h [ ]
  take-over (b ∷ bs) (x ∷ xs) h = ap (◌∷◌ b) (take-over bs xs (omega arith))

  length-over : (bs xs : List A) → length bs ≤ length xs → length (over xs bs) ≡ length xs
  unfolding over
  length-over [] xs h = refl
  length-over (b ∷ bs) [] h = elim h [ ]
  length-over (b ∷ bs) (x ∷ xs) h = ap suc (length-over bs xs (omega arith))

  slice-over_above :
      (bs xs : List A) (j n : ℕ) → length bs ≤ j → slice (over xs bs) j n ≡ slice xs j n
  unfolding over slice
  slice-over_above [] xs j n h = refl
  slice-over_above (b ∷ bs) xs zero n h = elim h [ ]
  slice-over_above (b ∷ bs) [] (suc j) n h = slice-beyond bs j n (omega arith)
    where
      slice-beyond : (cs : List A) (k m : ℕ) → length cs ≤ k → slice cs k m ≡ []
      slice-beyond [] zero zero p = refl
      slice-beyond [] zero (suc m) p = refl
      slice-beyond [] (suc k) m p = refl
      slice-beyond (c ∷ cs) zero m p = elim p [ ]
      slice-beyond (c ∷ cs) (suc k) m p = slice-beyond cs k m (omega arith)
  slice-over_above (b ∷ bs) (x ∷ xs) (suc j) n h = slice-over_above bs xs j n (omega arith)

  pub length-patch :
      (xs : List A) (i : ℕ) (bs : List A)
      → i + length bs ≤ length xs
      → length (patch xs i bs) ≡ length xs
  unfolding patch
  length-patch xs zero bs h = length-over bs xs (omega arith)
  length-patch [] (suc i) bs h = refl
  length-patch (x ∷ xs) (suc i) bs h = ap suc (length-patch xs i bs (omega arith))

  pub slice-patch_self :
      (xs : List A) (i : ℕ) (bs : List A)
      → i + length bs ≤ length xs
      → slice (patch xs i bs) i (length bs) ≡ bs
  unfolding patch slice
  slice-patch_self xs zero bs h = take-over bs xs (omega arith)
  slice-patch_self [] (suc i) bs h = absurd (omega arith)
  slice-patch_self (x ∷ xs) (suc i) bs h = slice-patch_self xs i bs (omega arith)

  pub slice-patch_above :
      (xs : List A) (i : ℕ) (bs : List A) (j n : ℕ)
      → i + length bs ≤ j
      → slice (patch xs i bs) j n ≡ slice xs j n
  unfolding patch slice
  slice-patch_above xs zero bs j n h = slice-over_above bs xs j n (omega arith)
  slice-patch_above [] (suc i) bs zero n h = absurd (omega arith)
  slice-patch_above [] (suc i) bs (suc j) n h = refl
  slice-patch_above (x ∷ xs) (suc i) bs zero n h = absurd (omega arith)
  slice-patch_above (x ∷ xs) (suc i) bs (suc j) n h = slice-patch_above xs i bs j n (omega arith)

  take-patch :
      (xs : List A) (i : ℕ) (bs : List A) (n : ℕ) → n ≤ i → take n (patch xs i bs) ≡ take n xs
  unfolding patch
  take-patch xs i bs zero h = refl
  take-patch xs zero bs (suc n) h = elim h [ ]
  take-patch [] (suc i) bs (suc n) h = refl
  take-patch (x ∷ xs) (suc i) bs (suc n) h = ap (◌∷◌ x) (take-patch xs i bs n (omega arith))

  pub slice-patch_below :
      (xs : List A) (i : ℕ) (bs : List A) (j n : ℕ)
      → j + n ≤ i
      → slice (patch xs i bs) j n ≡ slice xs j n
  unfolding slice patch
  slice-patch_below xs i bs zero n h = take-patch xs i bs n (omega arith)
  slice-patch_below xs zero bs (suc j) n h = absurd (omega arith)
  slice-patch_below [] (suc i) bs (suc j) n h = refl
  slice-patch_below (x ∷ xs) (suc i) bs (suc j) n h = slice-patch_below xs i bs j n (omega arith)

  pub slice_empty : (xs : List A) (i : ℕ) → slice xs i 0 ≡ []
  unfolding slice
  slice_empty xs zero = refl
  slice_empty [] (suc i) = refl
  slice_empty (x ∷ xs) (suc i) = slice_empty xs i

  -- All of a list.
  pub slice_whole : (xs : List A) → slice xs 0 (length xs) ≡ xs
  unfolding slice
  slice_whole [] = refl
  slice_whole (x ∷ xs) = ap (◌∷◌ x) (slice_whole xs)

  pub length-slice : (xs : List A) (i n : ℕ) → i + n ≤ length xs → length (slice xs i n) ≡ n
  unfolding slice
  length-slice xs zero n h = omega (arith, length-take n xs)
  length-slice [] (suc i) n h = absurd (omega arith)
  length-slice (x ∷ xs) (suc i) n h = length-slice xs i n (omega arith)

  split_at_zero :
      (xs front bs : List A)
      → take (length (front ++ bs)) xs ≡ front ++ bs
      → (take (length front) xs ≡ front) × (slice xs (length front) (length bs) ≡ bs)
  unfolding slice
  split_at_zero xs [] bs h = (refl, h)
  split_at_zero [] (a ∷ front) bs h = cc
  split_at_zero (x ∷ xs) (a ∷ front) bs h =
      let (h1, h2) = split_at_zero xs front bs (cc) in (cc, h2)

  -- What stands at `i` as `front ++ bs` stands there as `front`, with `bs` behind it.
  pub slice_split :
      (xs : List A) (i j : ℕ) (front bs : List A)
      → slice xs i (length (front ++ bs)) ≡ front ++ bs
      → j ≡ i + length front
      → i + length (front ++ bs) ≤ length xs
      → (slice xs i (length front) ≡ front) × (slice xs j (length bs) ≡ bs)
  unfolding slice
  slice_split xs zero j front bs h e fits =
      let e' : j ≡ length front = omega arith in rw e' (split_at_zero xs front bs h)
  slice_split [] (suc i) j front bs h e fits = absurd (omega arith)
  slice_split (x ∷ xs) (suc i) zero front bs h e fits = absurd (omega arith)
  slice_split (x ∷ xs) (suc i) (suc j) front bs h e fits =
      slice_split xs i j front bs h (omega arith) (omega arith)

  take_join :
      (xs front bs : List A) (m n : ℕ)
      → take m xs ≡ front
      → m ≡ length front
      → slice xs m n ≡ bs
      → take (m + n) xs ≡ front ++ bs
  unfolding slice
  take_join xs [] bs zero n h e k = rw (add.zero n) k
  take_join xs [] bs (suc m) n h e k = absurd (omega arith)
  take_join xs (a ∷ front) bs zero n h e k = absurd (omega arith)
  take_join [] (a ∷ front) bs (suc m) n h e k = cc
  take_join (x ∷ xs) (a ∷ front) bs (suc m) n h e k =
      rw (add.suc m n) (cc (take_join xs front bs m n (cc) (omega arith) k))

  -- The other way round.
  pub slice_join :
      (xs : List A) (i j : ℕ) (front bs : List A)
      → slice xs i (length front) ≡ front
      → j ≡ i + length front
      → slice xs j (length bs) ≡ bs
      → i + length (front ++ bs) ≤ length xs
      → slice xs i (length (front ++ bs)) ≡ front ++ bs
  unfolding slice
  slice_join xs zero j front bs h e k fits =
      let e' : length front ≡ j = omega arith in
      rw (length-append front bs)
        (take_join xs front bs (length front) (length bs) h refl (rw e' k))
  slice_join [] (suc i) j front bs h e k fits = absurd (omega arith)
  slice_join (x ∷ xs) (suc i) zero front bs h e k fits = absurd (omega arith)
  slice_join (x ∷ xs) (suc i) (suc j) front bs h e k fits =
      slice_join xs i j front bs h (omega arith) k (omega arith)

module _ {ℓ} {A : Type ℓ} where
  over_append :
      (xs bs cs : List A) (i : ℕ)
      → i ≡ length bs
      → length bs + length cs ≤ length xs
      → patch (over xs bs) i cs ≡ over xs (bs ++ cs)
  unfolding over patch
  over_append xs [] cs zero e h = refl
  over_append xs [] cs (suc i) e h = absurd (omega arith)
  over_append [] (b ∷ bs) cs i e h = absurd (omega arith)
  over_append (x ∷ xs) (b ∷ bs) cs zero e h = absurd (omega arith)
  over_append (x ∷ xs) (b ∷ bs) cs (suc i) e h =
      ap (◌∷◌ b) (over_append xs bs cs i (omega arith) (omega arith))

  -- Two writes one behind the other are one.
  pub patch_append :
      (xs : List A) (i j : ℕ) (bs cs : List A)
      → j ≡ i + length bs
      → i + length bs + length cs ≤ length xs
      → patch (patch xs i bs) j cs ≡ patch xs i (bs ++ cs)
  unfolding patch
  patch_append xs zero j bs cs e h = over_append xs bs cs j (omega arith) (omega arith)
  patch_append [] (suc i) j bs cs e h = absurd (omega arith)
  patch_append (x ∷ xs) (suc i) zero bs cs e h = absurd (omega arith)
  patch_append (x ∷ xs) (suc i) (suc j) bs cs e h =
      ap (◌∷◌ x) (patch_append xs i j bs cs (omega arith) (omega arith))

  pub patch_nothing : (xs : List A) (i : ℕ) → patch xs i [] ≡ xs
  unfolding patch over
  patch_nothing xs zero = refl
  patch_nothing [] (suc i) = refl
  patch_nothing (x ∷ xs) (suc i) = ap (◌∷◌ x) (patch_nothing xs i)

  over_full : (xs bs : List A) → length bs ≡ length xs → over xs bs ≡ bs
  unfolding over
  over_full [] [] h = refl
  over_full (x ∷ xs) [] h = absurd (omega arith)
  over_full [] (b ∷ bs) h = absurd (omega arith)
  over_full (x ∷ xs) (b ∷ bs) h = ap (◌∷◌ b) (over_full xs bs (omega arith))

  -- A write of all elements leaves nothing of what was there.
  pub patch_full : (xs bs : List A) → length bs ≡ length xs → patch xs 0 bs ≡ bs
  unfolding patch
  patch_full xs bs h = over_full xs bs h

-- `memcpy(data + off, bs, n)`, and `memcpy(to, data + off, n)`. A negative offset, as a bit
-- pattern, is far beyond every buffer.
unfoldable pub store : Buffer → ℕ → List ℕ → Result Buffer
store data_at off bs =
    if leb (off + length bs) (length data_at) then ok (patch data_at off bs) else fault

unfoldable pub load : Buffer → ℕ → ℕ → Result (List ℕ)
load data_at off n = if leb (off + n) (length data_at) then ok (slice data_at off n) else fault

unfoldable pub store_int : Buffer → ℕ → ℕ → Result Buffer
store_int data_at off n = store data_at off (int_bytes n)

unfoldable pub load_int : Buffer → ℕ → Result ℕ
load_int data_at off = do bs ← load data_at off 4; ok (int_of bs)

module _ (data_at : Buffer) (off : ℕ) where
  pub store_ok :
      (bs : List ℕ)
      → off + length bs ≤ length data_at
      → store data_at off bs ≡ ok (patch data_at off bs)
  unfolding store
  store_ok bs h = rw (le→leb _ _ h)

  pub load_ok : (n : ℕ) → off + n ≤ length data_at → load data_at off n ≡ ok (slice data_at off n)
  unfolding load
  load_ok n h = rw (le→leb _ _ h)

  pub store_int_ok :
      (n : ℕ)
      → off + 4 ≤ length data_at
      → store_int data_at off n ≡ ok (patch data_at off (int_bytes n))
  unfolding store_int
  store_int_ok n h = store_ok (int_bytes n) (omega (arith, length-int_bytes n))

  -- An int is read back where its bytes stand.
  pub load_int_at :
      (n : ℕ)
      → IsInt n
      → off + 4 ≤ length data_at
      → slice data_at off 4 ≡ int_bytes n
      → load_int data_at off ≡ ok n
  unfolding load_int
  load_int_at n small fits h = rw (load_ok 4 fits, h, int_of-int_bytes n small)
