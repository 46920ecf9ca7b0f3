-- ===== src/StdMap.antt =====
-- std::map as the code uses it: an association list that is kept in the order of the keys, so that a
-- walk over it goes from the least key up.
use tiny_dbms.Base.{
  ◌≢◌, sym, Bool-cases, inl, inr, ℕ, ◌≡◌, refl, ◌↔◌, Bool, true, false, List, [], ◌∷◌, Option, none,
  some, arith, ltb, ◌==◌, ◌=str=◌, str_eq_refl, str_eq→eq, if◌then◌else◌,
}

-- What a key type offers: equality and `operator<`.
pub record Key {ℓ} (K : Type ℓ) : Type ℓ where
  pub same : K → K → Bool
  pub before : K → K → Bool
  pub same_iff : (a b : K) → (same a b ≡ true) ↔ (a ≡ b)

pub nat_same_iff : (a b : ℕ) → ((a == b) ≡ true) ↔ (a ≡ b)
nat_same_iff a b = (λ h. ground arith, λ h. ground arith)

instance abbrev pub nat_key : Key ℕ
nat_key = record { same = ◌==◌; before = ltb; same_iff = nat_same_iff }

-- std::string's `operator<`.
unfoldable pub string_before : List ℕ → List ℕ → Bool
string_before xs [] = false
string_before [] (y ∷ ys) = true
string_before (x ∷ xs) (y ∷ ys) = let rest = string_before xs ys in if x == y then rest else ltb x y

pub string_same_iff : (a b : List ℕ) → ((a =str= b) ≡ true) ↔ (a ≡ b)
string_same_iff a b = (str_eq→eq a b, λ h. rw h (str_eq_refl b))

instance abbrev pub string_key : Key (List ℕ)
string_key = record { same = ◌=str=◌; before = string_before; same_iff = string_same_iff }

module _ {ℓ κ} {K : Type ℓ} {V : Type κ} ⦃key : Key K⦄ where
  -- `m.find(k)`.
  unfoldable pub find : K → List (K × V) → Option V
  find k [] = none
  find k ((j, w) ∷ m) = let rest = find k m in if key.same j k then some w else rest

  -- `m[k] = v`.
  unfoldable pub assign : K → V → List (K × V) → List (K × V)
  assign k v [] = (k, v) ∷ []
  assign k v ((j, w) ∷ m) =
      let rest = assign k v m in
      if key.same j k
      then (k, v) ∷ m
      else if key.before k j
      then (k, v) ∷ (j, w) ∷ m
      else (j, w) ∷ rest

  -- `m.insert({k, v})` leaves an entry that is there.
  unfoldable pub insert_new : K → V → List (K × V) → List (K × V)
  insert_new k v m = elim (find k m) [ none ↦ assign k v m | some w ↦ m ]

  -- `m.erase(k)`.
  unfoldable pub erase : K → List (K × V) → List (K × V)
  erase k [] = []
  erase k ((j, w) ∷ m) = let rest = erase k m in if key.same j k then rest else (j, w) ∷ rest

  pub find-assign :
      (k j : K) (v : V) (m : List (K × V))
      → find j (assign k v m) ≡ (if key.same k j then some v else find j m)
  unfolding find assign
  find-assign k j v [] = refl
  find-assign k j v ((i, w) ∷ m) =
      ground (arith, key.same_iff k j, key.same_iff i k, key.same_iff i j, find-assign k j v m)

  pub find-assign_self : (k : K) (v : V) (m : List (K × V)) → find k (assign k v m) ≡ some v
  find-assign_self k v m = rw (find-assign k k v m, (key.same_iff k k).1 refl)

  pub find-assign_other :
      (k j : K) (v : V) (m : List (K × V)) → j ≢ k → find j (assign k v m) ≡ find j m
  find-assign_other k j v m ne = elim (Bool-cases (key.same k j)) [
    | inl h ↦ absurd (ne (sym ((key.same_iff k j).0 h)))
    | inr h ↦ rw (find-assign k j v m, h)
  ]

  pub find-erase :
      (k j : K) (m : List (K × V)) → find j (erase k m) ≡ (if key.same k j then none else find j m)
  unfolding find erase
  find-erase k j [] = ground arith
  find-erase k j ((i, w) ∷ m) =
      ground (arith, key.same_iff k j, key.same_iff i k, key.same_iff i j, find-erase k j m)

  pub find-insert_new_present :
      (k j : K) (v w : V) (m : List (K × V))
      → find k m ≡ some w
      → find j (insert_new k v m) ≡ find j m
  unfolding insert_new
  find-insert_new_present k j v w m e = rw (insert_new, e)
