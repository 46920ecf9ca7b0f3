-- ===== src/Lexer.antt =====
-- include/sql/parser/token.h and word_separater.h: a statement is split into tokens.
pub mod Round
pub mod Split
use tiny_dbms.Base.{
  ℕ, zero, suc, ◌+◌, Bool, true, false, not, ◌&&◌, ◌||◌, List, [], ◌∷◌, ◌++◌, ◌==◌, ◌=str=◌, leb,
  if◌then◌else◌, codes, length, Result, ok, raise, out_of_fuel,
}

pub data TokenType : Type 0 where
  keyword_t identifier_t operator_t number_t string_t unknown_t error_t : TokenType

pub record Token : Type 0 where
  pub type : TokenType
  pub value : List ℕ

abbrev pub key_words : List (List ℕ)
key_words =
    codes "SELECT"
    ∷ codes "FROM"
    ∷ codes "WHERE"
    ∷ codes "INSERT"
    ∷ codes "INTO"
    ∷ codes "VALUES"
    ∷ codes "CREATE"
    ∷ codes "TABLE"
    ∷ codes "DROP"
    ∷ codes "UPDATE"
    ∷ codes "SET"
    ∷ codes "DELETE"
    ∷ codes "ALTER"
    ∷ codes "ADD"
    ∷ codes "COLUMN"
    ∷ codes "AND"
    ∷ codes "OR"
    ∷ codes "NOT"
    ∷ codes "IN"
    ∷ codes "LIKE"
    ∷ codes "JOIN"
    ∷ codes "ON"
    ∷ codes "ORDER"
    ∷ codes "BY"
    ∷ codes "GROUP"
    ∷ codes "HAVING"
    ∷ codes "INT"
    ∷ codes "FLOAT"
    ∷ codes "VCHAR"
    ∷ codes "VECTOR"
    ∷ codes "DATABASE"
    ∷ []

unfoldable pub is_one_of : List ℕ → List (List ℕ) → Bool
is_one_of word [] = false
is_one_of word (k ∷ ks) = let rest = is_one_of word ks in if word =str= k then true else rest

unfoldable pub is_keyword : List ℕ → Bool
is_keyword word = is_one_of word key_words

-- The classes of <cctype> in the C locale. A byte from 128 on, a negative `char`, is in none of them.
abbrev pub between : ℕ → ℕ → ℕ → Bool
between lo hi c = leb lo c && leb c hi

unfoldable pub is_space : ℕ → Bool
is_space c = between 9 13 c || c == 32

unfoldable pub is_digit : ℕ → Bool
is_digit c = between 48 57 c

unfoldable pub is_alpha : ℕ → Bool
is_alpha c = between 65 90 c || between 97 122 c

unfoldable pub is_punct : ℕ → Bool
is_punct c = (between 33 47 c || between 58 64 c) || (between 91 96 c || between 123 126 c)

-- The first character of a word, and the others: the underscore is 95, the star 42, the dot 46.
unfoldable pub starts_word : ℕ → Bool
starts_word c = is_alpha c || c == 95

unfoldable pub goes_on_word : ℕ → Bool
goes_on_word c = (is_alpha c || is_digit c) || (c == 95 || c == 42)

unfoldable pub goes_on_number : ℕ → Bool
goes_on_number c = is_digit c || c == 46

unfoldable pub is_quote : ℕ → Bool
is_quote c = c == 39 || c == 34

-- `while (i < sql.length() && p(sql[i]))`: what is passed, and what is left.
unfoldable pub span : (ℕ → Bool) → List ℕ → List ℕ × List ℕ
span p [] = ([], [])
span p (c ∷ cs) = let (taken, rest) = span p cs in if p c then (c ∷ taken, rest) else ([], c ∷ cs)

-- One round: white space is skipped, or a token is read, or the statement is given up.
pub data Lexed : Type 0 where
  skipped : List ℕ → Lexed
  lexed : Token → List ℕ → Lexed
  given_up : Lexed

unfoldable pub word_token : List ℕ → Token
word_token word = record {
  type = if is_keyword word then keyword_t else identifier_t;
  value = word;
}

-- The closing quote is the character after the text.
unfoldable pub string_token : ℕ → List ℕ × List ℕ → Lexed
string_token quote (text, []) = given_up
string_token quote (text, q ∷ rest) =
    lexed (record { type = string_t; value = quote ∷ (text ++ (q ∷ [])) }) rest

unfoldable pub lex_one : ℕ → List ℕ → Lexed
lex_one c cs =
    if is_space c
    then skipped cs
    else if starts_word c
    then (let (word, rest) = span goes_on_word (c ∷ cs) in lexed (word_token word) rest)
    else if is_digit c
    then (let (number, rest) = span goes_on_number (c ∷ cs) in
        lexed (record { type = number_t; value = number }) rest)
    else if is_quote c
    then string_token c (span (λ d. not (d == c)) cs)
    else if is_punct c
    then lexed (record { type = operator_t; value = c ∷ [] }) cs
    else given_up

-- `tokens.clear(); return tokens;` when a round gives up.
unfoldable pub tokenize_loop : ℕ → List ℕ → List Token → Result (List Token)
tokenize_loop zero cs tokens = raise out_of_fuel
tokenize_loop (suc fuel) [] tokens = ok tokens
tokenize_loop (suc fuel) (c ∷ cs) tokens = elim (lex_one c cs) [
  | skipped rest ↦ tokenize_loop fuel rest tokens
  | lexed t rest ↦ tokenize_loop fuel rest (tokens ++ (t ∷ []))
  | given_up ↦ ok []
]

-- A round takes one character at least.
unfoldable pub tokenize : List ℕ → Result (List Token)
tokenize sql = tokenize_loop (suc (length sql)) sql []
