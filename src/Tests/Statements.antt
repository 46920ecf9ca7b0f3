-- ===== src/Tests/Statements.antt =====
-- A statement, and one whose quote has no end.
use tiny_dbms.Base.{ℕ, ◌≡◌, refl, ◌⊎◌, List, [], ◌∷◌, codes, ok, ◌=str=◌}
use tiny_dbms.Lexer.{
  Token, keyword_t, identifier_t, operator_t, number_t, is_keyword, is_space, is_digit, is_punct,
  is_quote, is_alpha, is_one_of, starts_word, goes_on_word, goes_on_number, span, word_token,
  string_token, lex_one, tokenize_loop, tokenize,
}
use tiny_dbms.Lexer.Round.{Splits, Stuck}
use tiny_dbms.Lexer.Split.{tokenize_lem}

abbrev statement : List ℕ
statement = codes "SELECT a FROM t WHERE b != 'x y' AND c > 1.5"

tokenize_statement :
    tokenize (codes "SELECT a_1 != 1.5")
    ≡ ok (
        record { type = keyword_t; value = codes "SELECT" }
        ∷ record { type = identifier_t; value = codes "a_1" }
        ∷ record { type = operator_t; value = codes "!" }
        ∷ record { type = operator_t; value = codes "=" }
        ∷ record { type = number_t; value = codes "1.5" }
        ∷ [])
unfolding tokenize tokenize_loop lex_one span is_space starts_word is_alpha goes_on_word is_digit
    goes_on_number is_quote is_punct word_token is_keyword is_one_of ◌=str=◌
tokenize_statement = refl

tokenize_unclosed : tokenize (codes "a = 'b") ≡ ok []
unfolding tokenize tokenize_loop lex_one span string_token is_space starts_word is_alpha
    goes_on_word is_digit is_quote is_punct word_token is_keyword is_one_of ◌=str=◌
tokenize_unclosed = refl

tokenize_lem_example :
    (ts : List Token) × (tokenize statement ≡ ok ts)
    × (Splits statement [] ts
        ⊎ ((ts ≡ [])
            × (rest : List ℕ) × (new : List Token) × Splits statement rest new
            × Stuck rest))
tokenize_lem_example = tokenize_lem statement
