-- ===== src/Parser/Steps.antt =====
-- One step along a sentence: the tokens of its first pattern, and the sentence behind them.
use tiny_dbms.Base.{
  ℕ, zero, suc, ◌≡◌, refl, ap, ◌∙◌, sym, Bool, true, false, ◌&&◌, List, [], ◌∷◌, ◌++◌, arith,
  ◌=str=◌, str_eq→eq, All, codes,
}
use tiny_dbms.Lexer.{
  TokenType, keyword_t, identifier_t, operator_t, number_t, string_t, unknown_t, error_t, Token,
}
use tiny_dbms.Pattern.{TokenPattern, fits, type_number, is_type, is_value}
use tiny_dbms.Pattern.Spec.{Matches, concat, Sentence}
use tiny_dbms.Pattern.Grammar.{
  tokens_only, keyword, sign, any_id, any_value, id, next_id, value, next_value, word,
}
use tiny_dbms.Parser.Shapes.{one_token, two_tokens}

abbrev pub identifier : List ℕ → Token
identifier name = record { type = identifier_t; value = name }

abbrev pub IsValue : Token → Type 0
IsValue t = is_value t ≡ true

-- The tokens of a list behind its first element: a comma before each.
abbrev pub listed {ℓ} : {A : Type ℓ} → (A → Token) → List A → List Token
listed f [] = []
listed f (x ∷ xs) = sign (codes ",") ∷ f x ∷ listed f xs

number_type : ℕ → TokenType
number_type zero = keyword_t
number_type (suc zero) = identifier_t
number_type (suc (suc zero)) = operator_t
number_type (suc (suc (suc zero))) = number_t
number_type (suc (suc (suc (suc zero)))) = string_t
number_type (suc (suc (suc (suc (suc zero))))) = unknown_t
number_type (suc (suc (suc (suc (suc (suc n)))))) = error_t

number_type-type_number : (a : TokenType) → number_type (type_number a) ≡ a
unfolding number_type
number_type-type_number keyword_t = refl
number_type-type_number identifier_t = refl
number_type-type_number operator_t = refl
number_type-type_number number_t = refl
number_type-type_number string_t = refl
number_type-type_number unknown_t = refl
number_type-type_number error_t = refl

pub is_type→eq : (a b : TokenType) → is_type a b ≡ true → a ≡ b
is_type→eq a b h =
    let same : (type_number a ≡ type_number b) = ground arith in
    sym (number_type-type_number a) ∙ ap number_type same ∙ number_type-type_number b

-- A token with the type and the text of a template is that template.
text_lem :
    (type : TokenType) (text : List ℕ) (x : Token)
    → (is_type x.type type && (x.value =str= text)) ≡ true
    → x ≡ record { type = type; value = text }
text_lem type text x h =
    let types : (is_type x.type type ≡ true) = ground arith in
    let texts : ((x.value =str= text) ≡ true) = ground arith in
    λ i. record { type = is_type→eq x.type type types i; value = str_eq→eq x.value text texts i }

pub sign_lem : (text : List ℕ) (x : Token) → fits (sign text) x ≡ true → x ≡ sign text
sign_lem text x h = text_lem operator_t text x h

pub keyword_lem : (text : List ℕ) (x : Token) → fits (keyword text) x ≡ true → x ≡ keyword text
keyword_lem text x h = text_lem keyword_t text x h

pub identifier_lem : (x : Token) → fits any_id x ≡ true → x ≡ identifier x.value
identifier_lem x h = λ i. record { type = is_type→eq x.type identifier_t h i; value = x.value }

-- The parts of a step handed to what follows, as variables.
pub then_back :
    {A : Type 0} {B : A → Type 0} {C : A → Type 0} {G : Type 0}
    → ((a : A) × B a × C a)
    → ((a : A) → B a → C a → G)
    → G
then_back (a, b, c) further = further a b c

pub then_item :
    {I : Type 0} {A : Type 0} {B : I → A → Type 0} {C : A → Type 0} {G : Type 0}
    → ((i : I) × (a : A) × B i a × C a)
    → ((i : I) (a : A) → B i a → C a → G)
    → G
then_item (i, a, b, c) further = further i a b c

pub then_value :
    {I : Type 0} {A : Type 0} {P : I → Type 0} {B : I → A → Type 0} {C : A → Type 0} {G : Type 0}
    → ((i : I) × (a : A) × P i × B i a × C a)
    → ((i : I) (a : A) → P i → B i a → C a → G)
    → G
then_value (i, a, p, b, c) further = further i a p b c

module _ (ps : List TokenPattern) (necs : List Bool) (tokens rest : List Token) where
  pub word_step :
      (text : List ℕ)
      → Sentence (word text ∷ ps) (true ∷ necs) tokens rest
      → (back : List Token) × (tokens ≡ keyword text ∷ back) × Sentence ps necs back rest
  word_step text (front, back, same, m, words) =
      let (x, e, fit) = one_token (keyword text) front m in
      (back, same ∙ rw (e, keyword_lem text x fit) refl, words)

  pub sign_step :
      (text : List ℕ)
      → Sentence (tokens_only (sign text ∷ []) ∷ ps) (true ∷ necs) tokens rest
      → (back : List Token) × (tokens ≡ sign text ∷ back) × Sentence ps necs back rest
  sign_step text (front, back, same, m, words) =
      let (x, e, fit) = one_token (sign text) front m in
      (back, same ∙ rw (e, sign_lem text x fit) refl, words)

  pub id_step :
      Sentence (id ∷ ps) (true ∷ necs) tokens rest
      → (name : List ℕ) × (back : List Token) × (tokens ≡ identifier name ∷ back)
        × Sentence ps necs back rest
  id_step (front, back, same, m, words) =
      let (x, e, fit) = one_token any_id front m in
      (
        x.value,
        back,
        same ∙ ap (◌++◌ front) refl ∙ rw e (ap (λ z. z ∷ back) (identifier_lem x fit)),
        words,
      )

  pub value_step :
      Sentence (value ∷ ps) (true ∷ necs) tokens rest
      → (v : Token) × (back : List Token) × IsValue v
        × (tokens ≡ v ∷ back)
        × Sentence ps necs back rest
  value_step (front, back, same, m, words) =
      let (x, e, fit) = one_token any_value front m in (x, back, fit, same ∙ rw e refl, words)

  pub ids_step :
      Sentence (next_id ∷ ps) (false ∷ necs) tokens rest
      → (names : List (List ℕ)) × (back : List Token) × (tokens ≡ listed identifier names ++ back)
        × Sentence ps necs back rest
  ids_step (fronts, back, same, all, words) =
      let (names, e) = ids fronts all in (names, back, same ∙ ap (λ z. z ++ back) e, words)
    where
      ids :
          (fronts : List (List Token))
          → All (Matches next_id) fronts
          → (names : List (List ℕ)) × (concat fronts ≡ listed identifier names)
      ids [] all = ([], refl)
      ids (front ∷ fronts) (m, all) =
          let (names, e) = ids fronts all in
          let (x, y, e', fit, fit') = two_tokens (sign (codes ",")) any_id front m in
          (
            y.value ∷ names,
            rw (e', sign_lem (codes ",") x fit, e)
                (ap (λ z. sign (codes ",") ∷ z ∷ listed identifier names) (identifier_lem y fit')),
          )

  pub values_step :
      Sentence (next_value ∷ ps) (false ∷ necs) tokens rest
      → (vs : List Token) × (back : List Token) × All IsValue vs
        × (tokens ≡ listed (λ v. v) vs ++ back)
        × Sentence ps necs back rest
  values_step (fronts, back, same, all, words) =
      let (vs, are, e) = values fronts all in (vs, back, are, same ∙ ap (λ z. z ++ back) e, words)
    where
      values :
          (fronts : List (List Token))
          → All (Matches next_value) fronts
          → (vs : List Token) × All IsValue vs × (concat fronts ≡ listed (λ v. v) vs)
      values [] all = ([], tt, refl)
      values (front ∷ fronts) (m, all) =
          let (vs, are, e) = values fronts all in
          let (x, y, e', fit, fit') = two_tokens (sign (codes ",")) any_value front m in
          (y ∷ vs, (fit', are), rw (e', sign_lem (codes ",") x fit, e) refl)
