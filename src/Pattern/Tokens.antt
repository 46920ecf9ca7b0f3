-- ===== src/Pattern/Tokens.antt =====
-- The checks of single tokens in Match: the tokens that CertainCheck and RangeCheck have accepted.
use std.Path.{subst}
use tiny_dbms.Base.{
  ℕ, zero, suc, ◌+◌, ◌≡◌, refl, ap, ◌∙◌, sym, inl, inr, Bool, true, false, Bool-cases, Option-cases,
  List, [], ◌∷◌, ◌++◌, arith, length, take, drop, leb, get_elem?, drop-append_length, Option, some,
  none, Result, ok, raise, fault, ◌>>=◌,
}
use tiny_dbms.Lexer.{Token}
use tiny_dbms.Pattern.{certain_check, range_loop, fits, one_fits, has_case}
use tiny_dbms.Pattern.Spec.{Fits, OneFits}

module _ {ℓ} {A : Type ℓ} where
  pub drop-get_elem? :
      (xs : List A) (i : ℕ) (x : A) → get_elem? xs i ≡ some x → drop i xs ≡ x ∷ drop (suc i) xs
  drop-get_elem? [] i x e = cc
  drop-get_elem? (y ∷ xs) zero x e = cc
  drop-get_elem? (y ∷ xs) (suc i) x e = drop-get_elem? xs i x e

  drop-drop : (xs : List A) (i j : ℕ) → drop j (drop i xs) ≡ drop (i + j) xs
  drop-drop xs zero j = let e : (0 + j ≡ j) = omega arith in rw e refl
  drop-drop [] (suc i) zero = let e : (suc i + 0 ≡ suc i) = omega arith in rw e refl
  drop-drop [] (suc i) (suc j) =
      let e : (suc i + suc j ≡ suc (i + suc j)) = omega arith in rw e refl
  drop-drop (x ∷ xs) (suc i) j =
      let e : (suc i + j ≡ suc (i + j)) = omega arith in rw e (drop-drop xs i j)

  pub drop-append :
      (xs front back : List A) (i : ℕ)
      → drop i xs ≡ front ++ back
      → drop (i + length front) xs ≡ back
  drop-append xs front back i e =
      sym (drop-drop xs i (length front)) ∙ rw e (drop-append_length front back)

-- A call that does not throw, and whose result has a property if there is no undefined behaviour.
abbrev pub Yields : {A : Type 0} → (A → Type 0) → Result A → Type 0
Yields P (ok a) = P a
Yields P (raise e) = ⊥
Yields P fault = Unit

pub Yields-bind :
    {A : Type 0} {B : Type 0} (P : A → Type 0) (Q : B → Type 0) (m : Result A) (k : A → Result B)
    → Yields P m
    → ((a : A) → P a → Yields Q (k a))
    → Yields Q (m >>= k)
Yields-bind P Q (ok a) k h further = further a h
Yields-bind P Q (raise e) k h further = absurd h
Yields-bind P Q fault k h further = tt

pub Yields-map :
    {A : Type 0} (P Q : A → Type 0) (m : Result A) → ((a : A) → P a → Q a) → Yields P m → Yields Q m
Yields-map P Q (ok a) weaker y = weaker a y
Yields-map P Q (raise e) weaker y = y
Yields-map P Q fault weaker y = y

pub Yields-ok : {A : Type 0} (P : A → Type 0) (m : Result A) (a : A) → m ≡ ok a → Yields P m → P a
Yields-ok P (ok b) a e y = subst P (ok_inj e) y
  where
    ok_inj : ok b ≡ ok a → b ≡ a
    ok_inj e = cc
Yields-ok P (raise err) a e y = absurd y
Yields-ok P fault a e y = cc

-- What holds if a check has answered true.
abbrev pub IfHit : Bool → Type 0 → Type 0
IfHit true A = A
IfHit false A = Unit

abbrev pub Certain : ℕ → List Token → List Token → ℕ → Bool → Type 0
Certain n template input k hit = IfHit hit (
    (front : List Token) × (back : List Token) × (drop k input ≡ front ++ back)
    × Fits (take n template) front
    × (length front ≡ n))

Certain-extend :
    (n : ℕ) (t x : Token) (template input : List Token) (k : ℕ) (hit : Bool)
    → get_elem? input k ≡ some x
    → fits t x ≡ true
    → Certain n template input (suc k) hit
    → Certain (suc n) (t ∷ template) input k hit
Certain-extend n t x template input k true e h (front, back, same, fit, len) =
    (x ∷ front, back, drop-get_elem? input k x e ∙ ap (◌∷◌ x) same, (h, fit), ap suc len)
Certain-extend n t x template input k false e h _ = tt

pub certain_check_lem :
    (n : ℕ) (template input : List Token) (k : ℕ)
    → Yields (Certain n template input k) (certain_check n template input k)
unfolding certain_check
certain_check_lem zero template input k = ([], drop k input, refl, refl, refl)
certain_check_lem (suc n) [] input k = elim (Bool-cases (leb (length input) k)) [
  | inl h ↦ rw h tt
  | inr h ↦ rw h tt
]
certain_check_lem (suc n) (t ∷ template) input k = elim (Option-cases (get_elem? input k)) [
  | inl e ↦ rw (e, certain_check, Yields) tt
  | inr (x, e) ↦ elim (Bool-cases (fits t x)) [
    | inl h ↦
        rw (e, certain_check, Yields, h)
          (extended (certain_check n template input (suc k)) x e h
            (certain_check_lem n template input (suc k)))
    | inr h ↦ rw (e, certain_check, Yields, h) tt
  ]
]
  where
    extended :
        (m : Result Bool) (x : Token)
        → get_elem? input k ≡ some x
        → fits t x ≡ true
        → Yields (Certain n template input (suc k)) m
        → Yields (Certain (suc n) (t ∷ template) input k) m
    extended (ok hit) x e h y = Certain-extend n t x template input k hit e h y
    extended (raise err) x e h y = y
    extended fault x e h y = tt

-- The token that a range has accepted, if it has.
abbrev pub Ranged : List Token → List Token → ℕ → Option Bool → Type 0
Ranged template input begin none = Unit
Ranged template input begin (some hit) =
    IfHit hit
      ((x : Token) × (back : List Token) × (drop begin input ≡ x ∷ back) × OneFits template x)

Ranged-extend :
    (t : Token) (template input : List Token) (begin : ℕ) (m : Result (Option Bool))
    → Yields (Ranged template input begin) m
    → Yields (Ranged (t ∷ template) input begin) m
Ranged-extend t template input begin (ok none) y = tt
Ranged-extend t template input begin (ok (some true)) (x, back, same, fit) =
    (x, back, same, inr fit)
Ranged-extend t template input begin (ok (some false)) y = tt
Ranged-extend t template input begin (raise e) y = y
Ranged-extend t template input begin fault y = tt

pub range_loop_lem :
    (template input : List Token) (begin : ℕ)
    → Yields (Ranged template input begin) (range_loop template input begin)
unfolding range_loop
range_loop_lem [] input begin = tt
range_loop_lem (t ∷ template) input begin =
    let rest =
      Ranged-extend t template input begin (range_loop template input begin)
        (range_loop_lem template input begin) in
    elim (Bool-cases (has_case t.type)) [
      | inr h ↦ rw h tt
      | inl h ↦ elim (Option-cases (get_elem? input begin)) [
        | inl e ↦ rw (h, e) tt
        | inr (x, e) ↦ elim (Bool-cases (one_fits t x)) [
          | inl hit ↦
              rw (h, e, hit) (x, drop (suc begin) input, drop-get_elem? input begin x e, inl hit)
          | inr miss ↦ rw (h, e, miss) rest
        ]
      ]
    ]
