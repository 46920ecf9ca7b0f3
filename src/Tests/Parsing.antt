-- ===== src/Tests/Parsing.antt =====
-- Statements that are parsed.
use tiny_dbms.Base.{
  ℕ, ◌≡◌, refl, List, [], ◌∷◌, Option, some, codes, Result, ok, fault, ◌>>=◌, ◌=str=◌,
}
use tiny_dbms.Lexer.{
  is_keyword, is_space, is_digit, is_punct, is_quote, is_alpha, is_one_of, starts_word,
  goes_on_word, goes_on_number, span, word_token, string_token, lex_one, tokenize_loop, tokenize,
}
use tiny_dbms.Value.{of_raw, get_value_type_from_str, vchar_t}
use tiny_dbms.Sql.{switch_comparator, bigger}
use tiny_dbms.Pattern.{
  certain_check, range_loop, get_match_length, match_tokens, matcher, match_many, match_loop,
  match_sql,
}
use tiny_dbms.Ast.{
  Ast, create_table_ast, insert_into_table_ast, select_from_one_table_ast, new_column, local_column,
  create_database_sql, create_columns, create_table_sql, insert_columns, insert_values,
  insert_into_table_sql, select_columns, compares, compares_by_two, new_compare, and_or,
  conditions_loop, select_from_one_table_sql, build_node,
}
use tiny_dbms.Parser.{start_patterns, parse_loop, parse_sql, build_ast}

unfoldable parsed : List ℕ → Result (Option Ast)
unfolding is_keyword is_space is_digit is_punct is_quote is_alpha is_one_of starts_word goes_on_word
    goes_on_number span word_token string_token lex_one tokenize_loop tokenize of_raw
    get_value_type_from_str switch_comparator certain_check range_loop get_match_length match_tokens
    matcher match_many match_loop match_sql create_database_sql create_columns create_table_sql
    insert_columns insert_values insert_into_table_sql select_columns compares compares_by_two
    new_compare and_or conditions_loop select_from_one_table_sql build_node start_patterns
    parse_loop parse_sql build_ast ◌=str=◌
parsed sql = do patterns ← start_patterns; (ast, patterns') ← build_ast patterns sql; ok ast

create_table_runs :
    parsed (codes "CREATE TABLE users (id INT, name VCHAR);")
    ≡ ok (
        some (
          create_table_ast (record {
            table_name = codes "users";
            columns =
                new_column (codes "id")
                ∷ record (new_column (codes "name")) { value_type = some vchar_t }
                ∷ [];
          })))
unfolding parsed
create_table_runs = refl

insert_runs :
    parsed (codes "INSERT INTO users (id, name) VALUES (7, 'x');")
    ≡ ok (
        some (
          insert_into_table_ast (record {
            table_name = codes "users";
            columns = new_column (codes "id") ∷ new_column (codes "name") ∷ [];
            values = of_raw (codes "7") ∷ of_raw (codes "'x'") ∷ [];
          })))
unfolding parsed
insert_runs = refl

select_runs :
    parsed (codes "SELECT id, name FROM users WHERE id > 7;")
    ≡ ok (
        some (
          select_from_one_table_ast (record {
            table_name = codes "users";
            columns = new_column (codes "id") ∷ new_column (codes "name") ∷ [];
            compare_vector =
                record {
                  col = local_column (codes "id");
                  condition = bigger;
                  compare_value = codes "7";
                }
                ∷ [];
          })))
unfolding parsed
select_runs = refl

select_short : parsed (codes "SELECT") ≡ fault
unfolding parsed
select_short = refl

select_and : parsed (codes "SELECT id FROM users WHERE id > 7 AND id > 8;") ≡ fault
unfolding parsed
select_and = refl
