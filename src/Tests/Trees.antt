-- ===== src/Tests/Trees.antt =====
-- Statements that the parser recognises, and the trees that it makes of them.
use tiny_dbms.Base.{
  All, inl, inr, fault, arith, ℕ, ◌≡◌, refl, List, [], ◌∷◌, map, some, codes, ok, ◌>>=◌, ◌=str=◌,
}
use tiny_dbms.Lexer.{Token, number_t}
use tiny_dbms.Value.{of_raw}
use tiny_dbms.Sql.{bigger, insert_into_table_node, create_table_node, select_from_one_table_node}
use tiny_dbms.Pattern.{
  SqlPatternMatcher, certain_check, range_loop, get_match_length, match_tokens, matcher, match_many,
  match_loop, match_sql,
}
use tiny_dbms.Pattern.Grammar.{keyword, sign}
use tiny_dbms.Parser.CreateTable.{IsCreateTable, typed_columns, parse-IsCreateTable}
use tiny_dbms.Ast.{
  local_column, new_column, create_table_ast, insert_into_table_ast, select_from_one_table_ast,
  build_node,
}
use tiny_dbms.Parser.{parse_loop, parse_sql}
use tiny_dbms.Parser.Recognise.{all_patterns_at_start, start_patterns_lem}
use tiny_dbms.Parser.Steps.{identifier}
use tiny_dbms.Parser.InsertBack.{parse_sql-insert_tokens}
use tiny_dbms.Parser.Insert.{insert_tokens, IsInsert, parse-IsInsert}
use tiny_dbms.Parser.SelectForm.{IsSelect, parse-IsSelect}
use tiny_dbms.Parser.SelectConditions.{IsSingle}
use tiny_dbms.Parser.Conditions.{IsJoined, Compared, NextCompared}
use tiny_dbms.Parser.Select.{build_node-IsSelect, build_node-IsAndOr}

abbrev number : List ℕ → Token
number text = record { type = number_t; value = text }

-- INSERT INTO users (id) VALUES (7);
abbrev insert_words : List Token
insert_words =
    keyword (codes "INSERT")
    ∷ keyword (codes "INTO")
    ∷ identifier (codes "users")
    ∷ sign (codes "(")
    ∷ identifier (codes "id")
    ∷ sign (codes ")")
    ∷ keyword (codes "VALUES")
    ∷ sign (codes "(")
    ∷ number (codes "7")
    ∷ sign (codes ")")
    ∷ sign (codes ";")
    ∷ []

insert_words_parsed :
    (ms : List SqlPatternMatcher) × (parse_sql all_patterns_at_start insert_words
      ≡ ok (insert_into_table_node, ms))
unfolding certain_check range_loop get_match_length match_tokens matcher match_many match_loop
    match_sql parse_loop parse_sql ◌=str=◌
insert_words_parsed = (_, refl)

parse-IsInsert_example :
    (i : IsInsert insert_words) × (build_node insert_words insert_into_table_node
      ≡ ok (
          some (
            insert_into_table_ast (record {
              table_name = i.table;
              columns = map new_column (i.column ∷ i.columns);
              values = map (λ (t : Token). of_raw t.value) (i.value ∷ i.values);
            }))))
parse-IsInsert_example =
    parse-IsInsert all_patterns_at_start insert_words_parsed.0 insert_words start_patterns_lem.1
      insert_words_parsed.1

-- With a text behind the semicolon, which the parser does not look at.
parse_sql-insert_tokens_example :
    (all_patterns' : List SqlPatternMatcher) × (parse_sql all_patterns_at_start (
        insert_tokens
          (codes "users")
          (codes "id")
          (codes "name" ∷ [])
          (number (codes "7"))
          (number (codes "8") ∷ [])
          (identifier (codes "more") ∷ []))
      ≡ ok (insert_into_table_node, all_patterns'))
    × (build_node
          (insert_tokens
            (codes "users")
            (codes "id")
            (codes "name" ∷ [])
            (number (codes "7"))
            (number (codes "8") ∷ [])
            (identifier (codes "more") ∷ []))
          insert_into_table_node
        ≡ ok (
            some (
              insert_into_table_ast (record {
                table_name = codes "users";
                columns = map new_column (codes "id" ∷ codes "name" ∷ []);
                values =
                    map
                      (λ (t : Token). of_raw t.value)
                      (number (codes "7") ∷ number (codes "8") ∷ []);
              }))))
parse_sql-insert_tokens_example =
    parse_sql-insert_tokens (codes "users") (codes "id") (codes "name" ∷ []) (number (codes "7"))
      (number (codes "8") ∷ []) (identifier (codes "more") ∷ []) refl (refl, tt)

-- CREATE TABLE users (id INT, name VCHAR);
abbrev create_words : List Token
create_words =
    keyword (codes "CREATE")
    ∷ keyword (codes "TABLE")
    ∷ identifier (codes "users")
    ∷ sign (codes "(")
    ∷ identifier (codes "id")
    ∷ keyword (codes "INT")
    ∷ sign (codes ",")
    ∷ identifier (codes "name")
    ∷ keyword (codes "VCHAR")
    ∷ sign (codes ")")
    ∷ sign (codes ";")
    ∷ []

create_words_parsed :
    (ms : List SqlPatternMatcher) × (parse_sql all_patterns_at_start create_words
      ≡ ok (create_table_node, ms))
unfolding certain_check range_loop get_match_length match_tokens matcher match_many match_loop
    match_sql parse_loop parse_sql ◌=str=◌
create_words_parsed = (_, refl)

parse-IsCreateTable_example :
    (i : IsCreateTable create_words) × (build_node create_words create_table_node ≡ (
      typed_columns (i.column ∷ i.columns) >>= λ columns.
      ok (some (create_table_ast (record { table_name = i.table; columns = columns })))))
parse-IsCreateTable_example =
    parse-IsCreateTable all_patterns_at_start create_words_parsed.0 create_words
      start_patterns_lem.1 create_words_parsed.1

-- SELECT id FROM users WHERE id > 7;
abbrev select_words : List Token
select_words =
    keyword (codes "SELECT")
    ∷ identifier (codes "id")
    ∷ keyword (codes "FROM")
    ∷ identifier (codes "users")
    ∷ keyword (codes "WHERE")
    ∷ identifier (codes "id")
    ∷ sign (codes ">")
    ∷ number (codes "7")
    ∷ sign (codes ";")
    ∷ []

select_words_parsed :
    (ms : List SqlPatternMatcher) × (parse_sql all_patterns_at_start select_words
      ≡ ok (select_from_one_table_node, ms))
unfolding certain_check range_loop get_match_length match_tokens matcher match_many match_loop
    match_sql parse_loop parse_sql ◌=str=◌
select_words_parsed = (_, refl)

parse-IsSelect_example : (i : IsSelect select_words) × All IsJoined i.nexts
parse-IsSelect_example =
    parse-IsSelect all_patterns_at_start select_words_parsed.0 select_words start_patterns_lem.1
      select_words_parsed.1

abbrev above_seven : Compared
above_seven = record { name = codes "id"; comparator = bigger; compared = number (codes "7") }

select_words_IsSelect : IsSelect select_words
select_words_IsSelect = record {
  first = identifier (codes "id");
  names = [];
  table = codes "users";
  wheres = above_seven ∷ [];
  nexts = [];
  rest = [];
  is_first = inr (codes "id", refl);
  have_values = (refl, tt);
  nexts_have_values = tt;
  same = refl;
}

above_seven-IsSingle : IsSingle above_seven
above_seven-IsSingle e = ground arith

build_node-IsSelect_example :
    build_node select_words select_from_one_table_node
    ≡ ok (
        some (
          select_from_one_table_ast (record {
            table_name = codes "users";
            columns = new_column (codes "id") ∷ [];
            compare_vector =
                record {
                  col = local_column (codes "id");
                  condition = bigger;
                  compare_value = codes "7";
                }
                ∷ [];
          })))
unfolding select_words_IsSelect
build_node-IsSelect_example =
    build_node-IsSelect select_words select_words_IsSelect (above_seven-IsSingle, tt) refl refl

-- SELECT id FROM users WHERE id > 7 AND id > 7;
abbrev and_words : List Token
and_words =
    keyword (codes "SELECT")
    ∷ identifier (codes "id")
    ∷ keyword (codes "FROM")
    ∷ identifier (codes "users")
    ∷ keyword (codes "WHERE")
    ∷ identifier (codes "id")
    ∷ sign (codes ">")
    ∷ number (codes "7")
    ∷ keyword (codes "AND")
    ∷ identifier (codes "id")
    ∷ sign (codes ">")
    ∷ number (codes "7")
    ∷ sign (codes ";")
    ∷ []

abbrev and_above_seven : NextCompared
and_above_seven = record { operator_token = keyword (codes "AND"); comparison = above_seven }

and_words_IsSelect : IsSelect and_words
and_words_IsSelect = record {
  first = identifier (codes "id");
  names = [];
  table = codes "users";
  wheres = above_seven ∷ [];
  nexts = and_above_seven ∷ [];
  rest = [];
  is_first = inr (codes "id", refl);
  have_values = (refl, tt);
  nexts_have_values = (refl, tt);
  same = refl;
}

build_node-IsAndOr_example : build_node and_words select_from_one_table_node ≡ fault
unfolding and_words_IsSelect
build_node-IsAndOr_example =
    build_node-IsAndOr and_words and_words_IsSelect above_seven [] and_above_seven [] refl
      (above_seven-IsSingle, tt) refl (inl refl)
