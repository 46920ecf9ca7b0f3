-- ===== src/Lexer/Round.antt =====
-- One round of the loop in Tokenize: the token that it reads, or that it can read none.
use tiny_dbms.Base.{
  ℕ, ◌≤◌, ◌≡◌, refl, ap, ◌∙◌, sym, inl, inr, Bool, true, false, Bool-cases, not, List, [], ◌∷◌,
  ◌++◌, append_assoc, append-nil, ◌==◌, arith, length, All,
}
use std.Path.{subst}
use tiny_dbms.Lexer.{
  operator_t, number_t, string_t, Token, is_space, is_digit, is_punct, is_quote, starts_word,
  goes_on_word, goes_on_number, span, Lexed, skipped, lexed, given_up, word_token, string_token,
  lex_one,
}

-- No character of a kind comes next.
pub Ends : (ℕ → Bool) → List ℕ → Type 0
Ends p [] = Unit
Ends p (c ∷ cs) = p c ≡ false

-- What a token of each kind looks like, and what it is followed by: a word and a number are as long as they can be.
pub data IsToken : Token → List ℕ → Type 0 where
  is_word :
      (c : ℕ) (cs rest : List ℕ)
      → starts_word c ≡ true
      → All (λ d. goes_on_word d ≡ true) cs
      → Ends goes_on_word rest
      → IsToken (word_token (c ∷ cs)) rest
  is_number :
      (c : ℕ) (cs rest : List ℕ)
      → is_digit c ≡ true
      → All (λ d. goes_on_number d ≡ true) cs
      → Ends goes_on_number rest
      → IsToken (record { type = number_t; value = c ∷ cs }) rest
  is_string :
      (q : ℕ) (text rest : List ℕ)
      → is_quote q ≡ true
      → All (λ d. not (d == q) ≡ true) text
      → IsToken (record { type = string_t; value = q ∷ (text ++ (q ∷ [])) }) rest
  is_operator :
      (c : ℕ) (rest : List ℕ)
      → is_punct c ≡ true
      → is_quote c ≡ false
      → starts_word c ≡ false
      → IsToken (record { type = operator_t; value = c ∷ [] }) rest

-- The tokens one after the other, with white space between them, are the text up to a rest.
pub data Splits : List ℕ → List ℕ → List Token → Type 0 where
  done : (rest : List ℕ) → Splits rest rest []
  white :
      (c : ℕ) (cs rest : List ℕ) (ts : List Token)
      → is_space c ≡ true
      → Splits cs rest ts
      → Splits (c ∷ cs) rest ts
  token :
      (t : Token) (cs rest : List ℕ) (ts : List Token)
      → IsToken t cs
      → Splits cs rest ts
      → Splits (t.value ++ cs) rest (t ∷ ts)

-- Text at which no token starts: a quote without its end, or a character of no class.
pub data Stuck : List ℕ → Type 0 where
  unclosed :
      (q : ℕ) (text : List ℕ)
      → is_quote q ≡ true
      → All (λ d. not (d == q) ≡ true) text
      → Stuck (q ∷ text)
  stray :
      (c : ℕ) (cs : List ℕ)
      → is_space c ≡ false
      → starts_word c ≡ false
      → is_digit c ≡ false
      → is_punct c ≡ false
      → Stuck (c ∷ cs)

span_lem :
    (p : ℕ → Bool) (cs : List ℕ)
    → ((span p cs).0 ++ (span p cs).1 ≡ cs)
      × All (λ d. p d ≡ true) (span p cs).0
      × Ends p (span p cs).1
      × (length (span p cs).1 ≤ length cs)
unfolding span Ends
span_lem p [] = (refl, tt, tt, omega arith)
span_lem p (c ∷ cs) =
    let (joined, all, ends, short) = span_lem p cs in
    elim (Bool-cases (p c)) [
      | inl h ↦ rw h (ap (◌∷◌ c) joined, (h, all), ends, omega (arith, short))
      | inr h ↦ rw h (refl, tt, h, omega arith)
    ]

span_first :
    (p : ℕ → Bool) (c : ℕ) (cs : List ℕ)
    → p c ≡ true
    → span p (c ∷ cs) ≡ (c ∷ (span p cs).0, (span p cs).1)
unfolding span
span_first p c cs h = rw h refl

-- What one round leaves of the text, and that what it took is white space or a token.
unfoldable pub Good : ℕ → List ℕ → Lexed → Type 0
Good c cs (skipped rest) = (is_space c ≡ true) × (rest ≡ cs)
Good c cs (lexed t rest) = IsToken t rest × (t.value ++ rest ≡ c ∷ cs) × (length rest ≤ length cs)
Good c cs given_up = Stuck (c ∷ cs)

not_other : (c q : ℕ) → not (q == c) ≡ false → q ≡ c
not_other c q h = ground arith

closed_lem :
    (c : ℕ) (cs text rest : List ℕ)
    → is_quote c ≡ true
    → text ++ rest ≡ cs
    → All (λ d. not (d == c) ≡ true) text
    → Ends (λ d. not (d == c)) rest
    → length rest ≤ length cs
    → Good c cs (string_token c (text, rest))
unfolding string_token Good Ends
closed_lem c cs text [] h joined all ends short =
    subst (λ z. Stuck (c ∷ z)) (sym (append-nil text) ∙ joined) (unclosed c text h all)
closed_lem c cs text (q ∷ rest) h joined all ends short =
    let same = not_other c q ends in
    (
      subst (λ z. IsToken (record { type = string_t; value = c ∷ (text ++ (z ∷ [])) }) rest)
          (sym same) (is_string c text rest h all),
      ap (◌∷◌ c) (append_assoc text (q ∷ []) rest ∙ joined),
      omega (arith, short),
    )

string_token_lem :
    (c : ℕ) (cs text rest : List ℕ)
    → is_quote c ≡ true
    → span (λ d. not (d == c)) cs ≡ (text, rest)
    → Good c cs (string_token c (text, rest))
unfolding string_token Good Ends
string_token_lem c cs text rest h e =
    let (joined, all, ends, short) = span_lem (λ d. not (d == c)) cs in
    closed_lem c cs text rest h
      (rw (ap (λ (z : List ℕ × List ℕ). z.0) (sym e), ap (λ (z : List ℕ × List ℕ). z.1) (sym e))
        joined)
      (subst (All (λ d. not (d == c) ≡ true)) (ap (λ (z : List ℕ × List ℕ). z.0) e) all)
      (subst (Ends (λ d. not (d == c))) (ap (λ (z : List ℕ × List ℕ). z.1) e) ends)
      (subst (λ z. length z ≤ length cs) (ap (λ (z : List ℕ × List ℕ). z.1) e) short)

word_goes_on : (c : ℕ) → starts_word c ≡ true → goes_on_word c ≡ true
unfolding starts_word goes_on_word
word_goes_on c h = ground arith

digit_goes_on : (c : ℕ) → is_digit c ≡ true → goes_on_number c ≡ true
unfolding goes_on_number
digit_goes_on c h = rw h refl

pub lex_one_lem : (c : ℕ) (cs : List ℕ) → Good c cs (lex_one c cs)
unfolding lex_one Good word_token
lex_one_lem c cs = elim (Bool-cases (is_space c)) [
  | inl h ↦ rw h (h, refl)
  | inr h1 ↦ rw h1 (elim (Bool-cases (starts_word c)) [
    | inl h ↦
        let (joined, all, ends, short) = span_lem goes_on_word cs in
        rw (h, span_first goes_on_word c cs (word_goes_on c h))
          (
            is_word c (span goes_on_word cs).0 (span goes_on_word cs).1 h all ends,
            ap (◌∷◌ c) joined,
            short,
          )
    | inr h2 ↦ rw h2 (elim (Bool-cases (is_digit c)) [
      | inl h ↦
          let (joined, all, ends, short) = span_lem goes_on_number cs in
          rw (h, span_first goes_on_number c cs (digit_goes_on c h))
            (
              is_number c (span goes_on_number cs).0 (span goes_on_number cs).1 h all ends,
              ap (◌∷◌ c) joined,
              short,
            )
      | inr h3 ↦ rw h3 (elim (Bool-cases (is_quote c)) [
        | inl h ↦ rw h (
            string_token_lem c cs (span (λ d. not (d == c)) cs).0 (span (λ d. not (d == c)) cs).1 h
              refl)
        | inr h4 ↦ rw h4 (elim (Bool-cases (is_punct c)) [
          | inl h ↦ rw h (is_operator c cs h h4 h2, refl, omega arith)
          | inr h ↦ rw h (stray c cs h1 h2 h3 h)
        ])
      ])
    ])
  ])
]
