-- ===== src/Pattern/Grammar.antt =====
-- include/sql/parser/sql_pattern.h: the patterns that the supported statements are built from.
use tiny_dbms.Base.{List, [], ◌∷◌, Bool, true, false, none, codes, length, ℕ}
use tiny_dbms.Lexer.{Token, keyword_t, identifier_t, operator_t, string_t}
use tiny_dbms.Pattern.{TokenPattern, pattern_of, Patterns, nil, cons}

abbrev pub keyword : List ℕ → Token
keyword word = record { type = keyword_t; value = word }

abbrev pub sign : List ℕ → Token
sign word = record { type = operator_t; value = word }

abbrev pub any_id : Token
any_id = record { type = identifier_t; value = [] }

abbrev pub any_value : Token
any_value = record { type = string_t; value = [] }

-- A pattern of as many tokens as its template has, with or without others behind it, and a range of
-- tokens one of which is to match.
abbrev pub tokens_then : List Token → Patterns → TokenPattern
tokens_then template next = pattern_of (length template) template false next none

abbrev pub tokens_only : List Token → TokenPattern
tokens_only template = tokens_then template nil

abbrev pub one_token_of : List Token → Patterns → TokenPattern
one_token_of template next = pattern_of (length template) template true next none

abbrev pub id : TokenPattern
id = tokens_only (any_id ∷ [])

abbrev pub next_id : TokenPattern
next_id = tokens_only (sign (codes ",") ∷ any_id ∷ [])

abbrev pub value : TokenPattern
value = tokens_only (any_value ∷ [])

abbrev pub next_value : TokenPattern
next_value = tokens_only (sign (codes ",") ∷ any_value ∷ [])

abbrev pub word : List ℕ → TokenPattern
word text = tokens_only (keyword text ∷ [])

abbrev pub left_bracket : TokenPattern
left_bracket = tokens_only (sign (codes "(") ∷ [])

abbrev pub right_bracket : TokenPattern
right_bracket = tokens_only (sign (codes ")") ∷ [])

abbrev pub semicolon : TokenPattern
semicolon = tokens_only (sign (codes ";") ∷ [])

abbrev pub value_type : TokenPattern
value_type =
    one_token_of
      (keyword (codes "INT")
        ∷ keyword (codes "FLOAT")
        ∷ keyword (codes "VCHAR")
        ∷ keyword (codes "VECTOR")
        ∷ [])
      nil

abbrev pub next_column : TokenPattern
next_column = tokens_then (sign (codes ",") ∷ any_id ∷ []) (cons value_type nil)

abbrev pub first_col : TokenPattern
first_col = one_token_of (sign (codes "*") ∷ []) (cons id nil)

abbrev pub not_equal_sign : TokenPattern
not_equal_sign = tokens_only (sign (codes "!") ∷ sign (codes "=") ∷ [])

abbrev pub comparer : TokenPattern
comparer =
    one_token_of (sign (codes ">") ∷ sign (codes "<") ∷ sign (codes "=") ∷ [])
      (cons not_equal_sign nil)

abbrev pub operator : TokenPattern
operator = one_token_of (keyword (codes "AND") ∷ keyword (codes "OR") ∷ []) nil

abbrev pub condition : TokenPattern
condition = tokens_then [] (cons (word (codes "WHERE")) (cons id (cons comparer (cons value nil))))

abbrev pub next_condition : TokenPattern
next_condition = tokens_then [] (cons operator (cons id (cons comparer (cons value nil))))

abbrev pub create_database_sql_pattern : List TokenPattern
create_database_sql_pattern = word (codes "CREATE") ∷ word (codes "DATABASE") ∷ id ∷ semicolon ∷ []

abbrev pub create_database_sql_pattern_nec : List Bool
create_database_sql_pattern_nec = true ∷ true ∷ true ∷ true ∷ []

abbrev pub create_table_sql_pattern : List TokenPattern
create_table_sql_pattern =
    word (codes "CREATE")
    ∷ word (codes "TABLE")
    ∷ id
    ∷ left_bracket
    ∷ id
    ∷ value_type
    ∷ next_column
    ∷ right_bracket
    ∷ semicolon
    ∷ []

abbrev pub create_table_sql_pattern_nec : List Bool
create_table_sql_pattern_nec = true ∷ true ∷ true ∷ true ∷ true ∷ true ∷ false ∷ true ∷ true ∷ []

abbrev pub insert_into_sql_pattern : List TokenPattern
insert_into_sql_pattern =
    word (codes "INSERT")
    ∷ word (codes "INTO")
    ∷ id
    ∷ left_bracket
    ∷ id
    ∷ next_id
    ∷ right_bracket
    ∷ word (codes "VALUES")
    ∷ left_bracket
    ∷ value
    ∷ next_value
    ∷ right_bracket
    ∷ semicolon
    ∷ []

abbrev pub insert_into_sql_pattern_nec : List Bool
insert_into_sql_pattern_nec =
    true ∷ true ∷ true ∷ true ∷ true ∷ false ∷ true ∷ true ∷ true ∷ true ∷ false ∷ true ∷ true ∷ []

abbrev pub select_from_one_table_sql_pattern : List TokenPattern
select_from_one_table_sql_pattern =
    word (codes "SELECT")
    ∷ first_col
    ∷ next_id
    ∷ word (codes "FROM")
    ∷ id
    ∷ condition
    ∷ next_condition
    ∷ semicolon
    ∷ []

abbrev pub select_from_one_table_sql_pattern_nec : List Bool
select_from_one_table_sql_pattern_nec =
    true ∷ true ∷ false ∷ true ∷ true ∷ false ∷ false ∷ true ∷ []

abbrev pub delete_from_sql_pattern : List TokenPattern
delete_from_sql_pattern =
    word (codes "DELETE") ∷ word (codes "FROM") ∷ id ∷ condition ∷ next_condition ∷ semicolon ∷ []

abbrev pub delete_from_sql_pattern_nec : List Bool
delete_from_sql_pattern_nec = true ∷ true ∷ true ∷ false ∷ false ∷ false ∷ []
