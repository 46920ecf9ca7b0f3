-- ===== src/Lexer/Split.antt =====
-- What Tokenize returns: the statement cut into well-formed tokens.
use tiny_dbms.Base.{
  ℕ, zero, suc, ◌<◌, ◌≡◌, refl, ◌∙◌, sym, ◌⊎◌, inl, inr, List, [], ◌∷◌, ◌++◌, append_assoc,
  append-nil, arith, length, ok,
}
use std.Path.{subst}
use tiny_dbms.Lexer.{Token, Lexed, skipped, lexed, given_up, lex_one, tokenize_loop, tokenize}
use tiny_dbms.Lexer.Round.{Splits, done, white, token, Stuck, Good, lex_one_lem}

-- A statement that is cut into tokens, or at which the tokenizer gives up.
pub Outcome : List ℕ → List Token → List Token → Type 0
Outcome cs tokens ts =
    ((new : List Token) × (ts ≡ tokens ++ new) × Splits cs [] new)
    ⊎ ((ts ≡ []) × (rest : List ℕ) × (new : List Token) × Splits cs rest new × Stuck rest)

-- One round, of which lex_one_lem tells.
round_lem :
    (fuel c : ℕ) (cs : List ℕ) (tokens : List Token) (l : Lexed)
    → lex_one c cs ≡ l
    → Good c cs l
    → length cs < fuel
    → ((rest : List ℕ) (tokens' : List Token)
        → length rest < fuel
        → (ts : List Token) × (tokenize_loop fuel rest tokens' ≡ ok ts) × Outcome rest tokens' ts)
    → (ts : List Token) × (tokenize_loop (suc fuel) (c ∷ cs) tokens ≡ ok ts)
      × Outcome (c ∷ cs) tokens ts
unfolding tokenize_loop Good Outcome
round_lem fuel c cs tokens (skipped rest) e (space, same) enough further =
    let (ts, runs, out) = further rest tokens (rw same enough) in
    (
      ts,
      rw (e, tokenize_loop) runs,
      elim out [
        | inl (new, whole, splits) ↦
            inl (new, whole, white c cs [] new space (subst (λ z. Splits z [] new) same splits))
        | inr (empty, left, new, splits, stuck) ↦ inr (
          empty,
          left,
          new,
          white c cs left new space (subst (λ z. Splits z left new) same splits),
          stuck,
        )
      ],
    )
round_lem fuel c cs tokens (lexed t rest) e (is_token, whole_text, short) enough further =
    let (ts, runs, out) = further rest (tokens ++ (t ∷ [])) (omega (arith, short, enough)) in
    (
      ts,
      rw (e, tokenize_loop) runs,
      elim out [
        | inl (new, whole, splits) ↦ inl (
          t ∷ new,
          whole ∙ append_assoc tokens (t ∷ []) new,
          subst (λ z. Splits z [] (t ∷ new)) whole_text (token t rest [] new is_token splits),
        )
        | inr (empty, left, new, splits, stuck) ↦ inr (
          empty,
          left,
          t ∷ new,
          subst (λ z. Splits z left (t ∷ new)) whole_text (token t rest left new is_token splits),
          stuck,
        )
      ],
    )
round_lem fuel c cs tokens given_up e stuck enough further =
    ([], rw (e, tokenize_loop) refl, inr (refl, c ∷ cs, [], done (c ∷ cs), stuck))

loop_lem :
    (fuel : ℕ) (cs : List ℕ) (tokens : List Token)
    → length cs < fuel
    → (ts : List Token) × (tokenize_loop fuel cs tokens ≡ ok ts) × Outcome cs tokens ts
unfolding tokenize_loop Outcome
loop_lem zero cs tokens enough = grind (arith, enough)
loop_lem (suc fuel) [] tokens enough = (tokens, refl, inl ([], sym (append-nil tokens), done []))
loop_lem (suc fuel) (c ∷ cs) tokens enough =
    round_lem fuel c cs tokens (lex_one c cs) refl (lex_one_lem c cs) (omega (arith, enough))
      (loop_lem fuel)

-- Tokenize always returns. Either its tokens, with white space between them, are the statement, each
-- well formed and each word and number as long as it can be; or it returns no token, and behind some
-- tokens the statement goes on with a quote that has no end or with a character of no class.
pub tokenize_lem :
    (sql : List ℕ)
    → (ts : List Token) × (tokenize sql ≡ ok ts)
      × (Splits sql [] ts
          ⊎ ((ts ≡ []) × (rest : List ℕ) × (new : List Token) × Splits sql rest new × Stuck rest))
unfolding tokenize Outcome
tokenize_lem sql =
    let (ts, runs, out) = loop_lem (suc (length sql)) sql [] (omega arith) in
    (
      ts,
      runs,
      elim out [
        | inl (new, whole, splits) ↦ inl (subst (Splits sql []) (sym whole) splits)
        | inr failed ↦ inr failed
      ],
    )
