-- ===== src/Pattern/Accept.antt =====
-- include/sql/parser/sql_pattern.h: tokens that Match accepts, one pattern after the other, for
-- patterns of certain tokens, which have no cache.
use tiny_dbms.Base.{
  ℕ, zero, suc, ◌+◌, ◌≤◌, ◌<◌, ◌≡◌, refl, ap, ◌∙◌, Bool, true, false, List, [], ◌∷◌, ◌++◌, arith,
  length, length-append, drop, length-drop, get_elem?, some, All, ok,
}
use tiny_dbms.Lexer.{Token}
use tiny_dbms.Pattern.{
  SqlPatternMatcher, match_sql, TokenPattern, fits, certain_check, match_tokens, get_match_length,
  match_many, match_loop,
}
use tiny_dbms.Pattern.Grammar.{tokens_only}

module _ {ℓ} {A : Type ℓ} where
  get_elem?-drop :
      (xs : List A) (k : ℕ) (x : A) (back : List A)
      → drop k xs ≡ x ∷ back
      → (get_elem? xs k ≡ some x) × (drop (suc k) xs ≡ back)
  get_elem?-drop [] zero x back e = cc
  get_elem?-drop [] (suc k) x back e = cc
  get_elem?-drop (y ∷ ys) zero x back e = (cc, cc)
  get_elem?-drop (y ∷ ys) (suc k) x back e = get_elem?-drop ys k x back e

-- The tokens from number `k` on.
next_drop :
    (input : List Token) (k : ℕ) (x : Token) (back : List Token)
    → drop k input ≡ x ∷ back
    → drop (k + 1) input ≡ back
next_drop input k x back e =
    let one : (k + 1 ≡ suc k) = omega arith in
    ap (λ z. drop z input) one ∙ (get_elem?-drop input k x back e).1

-- Of a pattern with no others behind it, Match is CertainCheck.
match_certain :
    (template : List Token) (input : List Token) (k : ℕ) (hit : Bool)
    → certain_check (length template) template input k ≡ ok hit
    → match_tokens (tokens_only template) input k ≡ ok (hit, tokens_only template)
unfolding match_tokens
match_certain template input k true e = rw e refl
match_certain template input k false e = rw e refl

certain_step :
    (n : ℕ) (t x : Token) (template input : List Token) (k : ℕ)
    → get_elem? input k ≡ some x
    → fits t x ≡ true
    → certain_check (suc n) (t ∷ template) input k ≡ certain_check n template input (suc k)
unfolding certain_check
certain_step n t x template input k e h = rw (e, certain_check, h) refl

certain_miss :
    (n : ℕ) (t x : Token) (template input : List Token) (k : ℕ)
    → get_elem? input k ≡ some x
    → fits t x ≡ false
    → certain_check (suc n) (t ∷ template) input k ≡ ok false
unfolding certain_check
certain_miss n t x template input k e h = rw (e, certain_check, h) refl

certain_end : (template input : List Token) (k : ℕ) → certain_check 0 template input k ≡ ok true
unfolding certain_check
certain_end template input k = refl

one_hit :
    (t x : Token) (input : List Token) (k : ℕ)
    → get_elem? input k ≡ some x
    → fits t x ≡ true
    → match_tokens (tokens_only (t ∷ [])) input k ≡ ok (true, tokens_only (t ∷ []))
one_hit t x input k e h =
    match_certain (t ∷ []) input k true
      (certain_step 0 t x [] input k e h ∙ certain_end [] input (suc k))

two_hit :
    (s t x y : Token) (input : List Token) (k : ℕ)
    → get_elem? input k ≡ some x
    → get_elem? input (suc k) ≡ some y
    → fits s x ≡ true
    → fits t y ≡ true
    → match_tokens (tokens_only (s ∷ t ∷ [])) input k ≡ ok (true, tokens_only (s ∷ t ∷ []))
two_hit s t x y input k e e' h h' = match_certain (s ∷ t ∷ []) input k true (
    certain_step 1 s x (t ∷ []) input k e h
    ∙ certain_step 0 t y [] input (suc k) e' h'
    ∙ certain_end [] input (suc (suc k)))

two_miss :
    (s t x : Token) (input : List Token) (k : ℕ)
    → get_elem? input k ≡ some x
    → fits s x ≡ false
    → match_tokens (tokens_only (s ∷ t ∷ [])) input k ≡ ok (false, tokens_only (s ∷ t ∷ []))
two_miss s t x input k e h =
    match_certain (s ∷ t ∷ []) input k false (certain_miss 1 s x (t ∷ []) input k e h)

abbrev pub Accepts : ℕ → List TokenPattern → List Bool → List Token → ℕ → Type 0
Accepts fuel ps necs input k =
    (ms : List TokenPattern) × (match_loop fuel ps necs input k ≡ ok (true, ms))

pub accept_one :
    (t x : Token) (fuel : ℕ) (ps : List TokenPattern) (necs : List Bool) (input : List Token)
    (k : ℕ) (back : List Token)
    → drop k input ≡ x ∷ back
    → fits t x ≡ true
    → (drop (k + 1) input ≡ back → Accepts fuel ps necs input (k + 1))
    → Accepts fuel (tokens_only (t ∷ []) ∷ ps) (true ∷ necs) input k
unfolding match_loop get_match_length
accept_one t x fuel ps necs input k back e h further =
    let (ms, rest) = further (next_drop input k x back e) in
    (
      tokens_only (t ∷ []) ∷ ms,
      rw (one_hit t x input k ((get_elem?-drop input k x back e).0) h, rest) refl,
    )

-- A list of items, a separator before each.
abbrev pub separated {ℓ} : {A : Type ℓ} → Token → (A → Token) → List A → List Token
separated s f [] = []
separated s f (a ∷ items) = s ∷ f a ∷ separated s f items

module _ {ℓ} {A : Type ℓ} (s t : Token) (f : A → Token) (same : fits s s ≡ true) where
  length-separated : (items : List A) → length items ≤ length (separated s f items)
  length-separated [] = omega arith
  length-separated (a ∷ items) = omega (arith, length-separated items)

  -- The loop takes every item, and stops at a token that is no separator.
  many_items :
      (items : List A) (fuel : ℕ) (input : List Token) (k : ℕ) (x : Token) (back : List Token)
      → drop k input ≡ separated s f items ++ (x ∷ back)
      → All (λ a. fits t (f a) ≡ true) items
      → fits s x ≡ false
      → length items < fuel
      → (k' : ℕ) × (match_many fuel (tokens_only (s ∷ t ∷ [])) input k
          ≡ ok (k', tokens_only (s ∷ t ∷ [])))
        × (drop k' input ≡ x ∷ back)
  unfolding match_many get_match_length
  many_items items zero input k x back e fit other enough = absurd (omega arith)
  many_items [] (suc fuel) input k x back e fit other enough =
      (k, rw (two_miss s t x input k ((get_elem?-drop input k x back e).0) other) refl, e)
  many_items (a ∷ items) (suc fuel) input k x back e (h, fit) other enough =
      let (e0, e1) = get_elem?-drop input k s (f a ∷ (separated s f items ++ (x ∷ back))) e in
      let (e2, e3) = get_elem?-drop input (suc k) (f a) (separated s f items ++ (x ∷ back)) e1 in
      let two : (k + 2 ≡ suc (suc k)) = omega arith in
      let (k', loop, end) =
        many_items items fuel input (k + 2) x back (ap (λ z. drop z input) two ∙ e3) fit other
          (omega arith) in
      (k', rw (two_hit s t s (f a) input k e0 e2 same h) loop, end)

  pub accept_many :
      (items : List A) (fuel : ℕ) (ps : List TokenPattern) (necs : List Bool) (input : List Token)
      (k : ℕ) (x : Token) (back : List Token)
      → drop k input ≡ separated s f items ++ (x ∷ back)
      → All (λ a. fits t (f a) ≡ true) items
      → fits s x ≡ false
      → length input < fuel
      → ((k' : ℕ) → drop k' input ≡ x ∷ back → Accepts fuel ps necs input k')
      → Accepts fuel (tokens_only (s ∷ t ∷ []) ∷ ps) (false ∷ necs) input k
  unfolding match_loop
  accept_many items fuel ps necs input k x back e fit other enough further =
      let few : (length items < fuel) = omega (
        arith,
        enough,
        length-drop k input,
        ap length e,
        length-append (separated s f items) (x ∷ back),
        length-separated items,
      ) in
      let (k', loop, end) = many_items items fuel input k x back e fit other few in
      let (ms, rest) = further k' end in (tokens_only (s ∷ t ∷ []) ∷ ms, rw (loop, rest) refl)

pub accept_end : (fuel : ℕ) (input : List Token) (k : ℕ) → Accepts fuel [] [] input k
unfolding match_loop
accept_end fuel input k = ([], refl)

-- A statement is accepted where the loop accepts it, and refused where its first word is another.
pub match_sql-Accepts :
    (m : SqlPatternMatcher) (input : List Token)
    → Accepts (suc (length input)) m.paterns m.necessary input 0
    → (m' : SqlPatternMatcher) × (match_sql m input ≡ ok (true, m'))
unfolding match_sql
match_sql-Accepts m input (ms, e) = (record m { paterns = ms }, rw e refl)

pub match_sql_other :
    (t x : Token) (ps : List TokenPattern) (necs : List Bool) (back : List Token)
    → fits t x ≡ false
    → match_sql (record { paterns = tokens_only (t ∷ []) ∷ ps; necessary = true ∷ necs }) (x ∷ back)
      ≡ ok (false, record { paterns = tokens_only (t ∷ []) ∷ ps; necessary = true ∷ necs })
unfolding match_sql match_loop
match_sql_other t x ps necs back h =
    rw (match_certain (t ∷ []) (x ∷ back) 0 false (certain_miss 0 t x [] (x ∷ back) 0 refl h)) refl
