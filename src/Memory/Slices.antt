-- ===== src/Memory/Slices.antt =====
-- Slices of joined and cut lists.
use tiny_dbms.Base.{
  ℕ, zero, suc, ◌+◌, ◌≤◌, ◌≡◌, refl, ap, ◌∙◌, sym, List, [], ◌∷◌, ◌++◌, arith, length, take, drop,
}
use tiny_dbms.Memory.Buffer.{slice}

module _ {ℓ} {A : Type ℓ} where
  take_front : (xs ys : List A) (n : ℕ) → n ≤ length xs → take n (xs ++ ys) ≡ take n xs
  take_front xs ys zero h = refl
  take_front [] ys (suc n) h = elim h [ ]
  take_front (x ∷ xs) ys (suc n) h = ap (◌∷◌ x) (take_front xs ys n (omega arith))

  pub slice_front :
      (xs ys : List A) (i n : ℕ) → i + n ≤ length xs → slice (xs ++ ys) i n ≡ slice xs i n
  unfolding slice
  slice_front xs ys zero n h = take_front xs ys n (omega arith)
  slice_front [] ys (suc i) n h = absurd (omega arith)
  slice_front (x ∷ xs) ys (suc i) n h = slice_front xs ys i n (omega arith)

  pub slice_back :
      (xs ys : List A) (i j n : ℕ) → i ≡ length xs + j → slice (xs ++ ys) i n ≡ slice ys j n
  unfolding slice
  slice_back [] ys i j n e = ap (λ k. slice ys k n) (e ∙ omega arith)
  slice_back (x ∷ xs) ys zero j n e = absurd (omega arith)
  slice_back (x ∷ xs) ys (suc i) j n e = slice_back xs ys i j n (omega arith)

  take-take : (xs : List A) (n p : ℕ) → n ≤ p → take n (take p xs) ≡ take n xs
  take-take xs zero p h = refl
  take-take xs (suc n) zero h = elim h [ ]
  take-take [] (suc n) (suc p) h = refl
  take-take (x ∷ xs) (suc n) (suc p) h = ap (◌∷◌ x) (take-take xs n p (omega arith))

  pub slice-take : (xs : List A) (p i n : ℕ) → i + n ≤ p → slice (take p xs) i n ≡ slice xs i n
  unfolding slice
  slice-take xs p zero n h = take-take xs n p (omega arith)
  slice-take xs zero (suc i) n h = absurd (omega arith)
  slice-take [] (suc p) (suc i) n h = refl
  slice-take (x ∷ xs) (suc p) (suc i) n h = slice-take xs p i n (omega arith)

  pub slice-drop : (xs : List A) (p i j n : ℕ) → j ≡ p + i → slice (drop p xs) i n ≡ slice xs j n
  unfolding slice
  slice-drop xs zero i j n e = ap (λ k. slice xs k n) (sym (e ∙ omega arith))
  slice-drop [] (suc p) i zero n e = absurd (omega arith)
  slice-drop [] (suc p) zero (suc j) zero e = refl
  slice-drop [] (suc p) zero (suc j) (suc n) e = refl
  slice-drop [] (suc p) (suc i) (suc j) n e = refl
  slice-drop (x ∷ xs) (suc p) i zero n e = absurd (omega arith)
  slice-drop (x ∷ xs) (suc p) i (suc j) n e = slice-drop xs p i j n (omega arith)

  pub take_all : (xs : List A) (n : ℕ) → length xs ≤ n → take n xs ≡ xs
  take_all [] zero h = refl
  take_all [] (suc n) h = refl
  take_all (x ∷ xs) zero h = elim h [ ]
  take_all (x ∷ xs) (suc n) h = ap (◌∷◌ x) (take_all xs n (omega arith))
