-- ===== src/Parser.antt =====
-- include/sql/parser/parser.h, with the table of matchers at the end of sql_pattern.h: a statement is
-- split into tokens, recognised by the first matcher that accepts it, and turned into a tree.
pub mod Shapes
pub mod Recognise
pub mod Steps
pub mod Insert
pub mod InsertBack
pub mod CreateTable
pub mod Conditions
pub mod SelectForm
pub mod SelectColumns
pub mod SelectConditions
pub mod Select
use tiny_dbms.Base.{ℕ, Bool, true, false, List, [], ◌∷◌, Option, Result, ok, fault, ◌>>=◌}
use tiny_dbms.Lexer.{Token, tokenize}
use tiny_dbms.Sql.{
  NodeType, create_database_node, create_table_node, insert_into_table_node,
  select_from_one_table_node, delete_from_table_node, unsupport_node,
}
use tiny_dbms.Pattern.{SqlPatternMatcher, matcher, match_sql}
use tiny_dbms.Pattern.Grammar.{
  create_database_sql_pattern, create_database_sql_pattern_nec, create_table_sql_pattern,
  create_table_sql_pattern_nec, insert_into_sql_pattern, insert_into_sql_pattern_nec,
  select_from_one_table_sql_pattern, select_from_one_table_sql_pattern_nec, delete_from_sql_pattern,
  delete_from_sql_pattern_nec,
}
use tiny_dbms.Ast.{Ast, build_node}

-- ALL_PATTERNS when the program starts.
unfoldable pub start_patterns : Result (List SqlPatternMatcher)
start_patterns = do
  create_database ← matcher create_database_sql_pattern create_database_sql_pattern_nec
  create_table ← matcher create_table_sql_pattern create_table_sql_pattern_nec
  insert_into_table ← matcher insert_into_sql_pattern insert_into_sql_pattern_nec
  select_from_one_table ←
      matcher select_from_one_table_sql_pattern select_from_one_table_sql_pattern_nec
  delete_from_table ← matcher delete_from_sql_pattern delete_from_sql_pattern_nec
  ok (
      create_database ∷ create_table ∷ insert_into_table ∷ select_from_one_table ∷ delete_from_table
      ∷ [])

abbrev pub all_patterns_node_type : List NodeType
all_patterns_node_type =
    create_database_node ∷ create_table_node ∷ insert_into_table_node ∷ select_from_one_table_node
    ∷ delete_from_table_node ∷ []

-- The loop over ALL_PATTERNS, whose matchers change what they have cached.
unfoldable pub parse_loop :
    List SqlPatternMatcher → List NodeType → List Token → Result (NodeType × List SqlPatternMatcher)
parse_loop [] types tokens = ok (unsupport_node, [])
parse_loop (m ∷ ms) [] tokens = fault
parse_loop (m ∷ ms) (type ∷ types) tokens = do
  (hit, m') ← match_sql m tokens
  elim hit [
    | true ↦ ok (type, m' ∷ ms)
    | false ↦ do (found, ms') ← parse_loop ms types tokens; ok (found, m' ∷ ms')
  ]

-- ParseSql and BuildAST are given ALL_PATTERNS and return it.
unfoldable pub parse_sql :
    List SqlPatternMatcher → List Token → Result (NodeType × List SqlPatternMatcher)
parse_sql all_patterns tokens = parse_loop all_patterns all_patterns_node_type tokens

unfoldable pub build_ast :
    List SqlPatternMatcher → List ℕ → Result (Option Ast × List SqlPatternMatcher)
build_ast all_patterns sql = do
  tokens ← tokenize sql
  (type, all_patterns') ← parse_sql all_patterns tokens
  ast ← build_node tokens type
  ok (ast, all_patterns')
