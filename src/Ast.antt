-- ===== src/Ast.antt =====
-- include/sql/parser/ast.h: what a statement holds, taken from its tokens. A list of tokens that is
-- left stands for the index of its first token; an index past the last token is undefined behaviour.
use tiny_dbms.Base.{
  ℕ, zero, suc, Bool, true, false, ◌&&◌, ◌||◌, List, [], ◌∷◌, ◌++◌, Option, none, some, ◌=str=◌,
  if◌then◌else◌, codes, length, drop, get_elem?, Result, ok, raise, fault, ◌>>=◌, sql_wrong, no_ast,
  out_of_fuel,
}
use tiny_dbms.Value.{int_t, Value, of_raw, get_value_type_from_str}
use tiny_dbms.Lexer.{keyword_t, identifier_t, operator_t, Token}
use tiny_dbms.Sql.{
  Column, CompareCondition, switch_comparator, NodeType, create_database_node, create_table_node,
  insert_into_table_node, select_from_one_table_node, drop_database_node, drop_table_node,
  delete_from_table_node, unsupport_node,
}
use tiny_dbms.Pattern.{is_type, is_value}

abbrev pub is_sign : List ℕ → Token → Bool
is_sign text t = is_type t.type operator_t && (t.value =str= text)

abbrev pub is_keyword_of : List ℕ → Token → Bool
is_keyword_of text t = is_type t.type keyword_t && (t.value =str= text)

abbrev pub token_at : List Token → ℕ → Result Token
token_at tokens i = elim (get_elem? tokens i) [ none ↦ fault | some t ↦ ok t ]

-- `new Column()` sets the members to zero; `Column compare_column;` leaves them.
abbrev pub new_column : List ℕ → Column
new_column name = record { col_name = name; value_type = some int_t; col_length = some 0 }

abbrev pub local_column : List ℕ → Column
local_column name = record { col_name = name; value_type = none; col_length = none }

pub record CreateDatabaseSql : Type 0 where
  pub db_name : List ℕ

unfoldable pub create_database_sql : List Token → Result CreateDatabaseSql
create_database_sql tokens = do t ← token_at tokens 2; ok (record { db_name = t.value })

pub record CreateTableSql : Type 0 where
  pub table_name : List ℕ
  pub columns : List Column

-- The loop over the tokens from number 4 on, with `cache_column` and the columns so far.
unfoldable pub create_columns : List Token → Option Column → List Column → Result (List Column)
create_columns [] cache columns = ok columns
create_columns (t ∷ ts) cache columns =
    let skip = create_columns ts cache columns in
    let name = create_columns ts (some (new_column t.value)) columns in
    if is_sign (codes ")") t
    then ok columns
    else if is_sign (codes ",") t
    then skip
    else (elim cache [
      | none ↦ name
      | some c ↦ do
        type ← get_value_type_from_str t.value
        create_columns ts none (columns ++ (record c { value_type = some type } ∷ []))
    ])

unfoldable pub create_table_sql : List Token → Result CreateTableSql
create_table_sql tokens = do
  t ← token_at tokens 2
  columns ← create_columns (drop 4 tokens) none []
  ok (record { table_name = t.value; columns = columns })

pub record InsertIntoTableSql : Type 0 where
  pub table_name : List ℕ
  pub columns : List Column
  pub values : List Value

-- The two loops: what they have collected, and the tokens from `)` on.
unfoldable pub insert_columns : List Token → List Column → List Column × List Token
insert_columns [] columns = (columns, [])
insert_columns (t ∷ ts) columns =
    let skip = insert_columns ts columns in
    let more = insert_columns ts (columns ++ (new_column t.value ∷ [])) in
    if is_sign (codes ")") t
    then (columns, t ∷ ts)
    else if is_sign (codes ",") t
    then skip
    else more

unfoldable pub insert_values : List Token → List Value → List Value
insert_values [] values = values
insert_values (t ∷ ts) values =
    let skip = insert_values ts values in
    let more = insert_values ts (values ++ (of_raw t.value ∷ [])) in
    if is_sign (codes ")") t then values else if is_sign (codes ",") t then skip else more

-- Three tokens, `) VALUES (`, are skipped.
unfoldable pub insert_into_table_sql : List Token → Result InsertIntoTableSql
insert_into_table_sql tokens = do
  t ← token_at tokens 2
  let (columns, rest) = insert_columns (drop 4 tokens) []
  ok (record { table_name = t.value; columns = columns; values = insert_values (drop 3 rest) [] })

pub record SelectFromOneTableSql : Type 0 where
  pub table_name : List ℕ
  pub columns : List Column
  pub compare_vector : List CompareCondition

-- The selected columns up to FROM. After each of them the next token is compared with `*`.
unfoldable pub select_columns : List Token → Bool → List Column → Result (List Column × List Token)
select_columns [] pre_is_asterisk columns = ok (columns, [])
select_columns (t ∷ ts) pre_is_asterisk columns =
    let skip = select_columns ts pre_is_asterisk columns in
    if is_keyword_of (codes "FROM") t
    then ok (columns, t ∷ ts)
    else if pre_is_asterisk
    then raise sql_wrong
    else if is_sign (codes ",") t
    then skip
    else (elim (get_elem? ts 0) [
      | none ↦ fault
      | some next ↦
          select_columns ts (next.value =str= codes "*") (columns ++ (new_column t.value ∷ []))
    ])

-- One comparison, `col_name comparator value`, at the first of these tokens, with a comparator of one
-- token or of two. The tests stop at the first that fails, so a later token need not be there.
unfoldable pub compares : List Token → Result Bool
compares ts = do
  a ← token_at ts 0
  elim (is_type a.type identifier_t) [
    | false ↦ ok false
    | true ↦ do
      b ← token_at ts 1
      elim (is_type b.type operator_t) [
        | false ↦ ok false
        | true ↦ do c ← token_at ts 2; ok (is_value c)
      ]
  ]

unfoldable pub compares_by_two : List Token → Result Bool
compares_by_two ts = do
  a ← token_at ts 0
  elim (is_type a.type identifier_t) [
    | false ↦ ok false
    | true ↦ do
      b ← token_at ts 1
      elim (is_type b.type operator_t) [
        | false ↦ ok false
        | true ↦ do
          c ← token_at ts 2
          elim (is_type c.type operator_t) [
            | false ↦ ok false
            | true ↦ do d ← token_at ts 3; ok (is_value d)
          ]
      ]
  ]

unfoldable pub new_compare : List Token → Result CompareCondition
new_compare ts = do
  a ← token_at ts 0
  b ← token_at ts 1
  comparator ← switch_comparator b.value
  c ← token_at ts 2
  ok (record { col = local_column a.value; condition = comparator; compare_value = c.value })

-- With a comparator of two tokens the value is taken from the second of them, number 3 of the source.
unfoldable pub new_compare_by_two : List Token → Result CompareCondition
new_compare_by_two ts = do
  a ← token_at ts 0
  b ← token_at ts 1
  c ← token_at ts 2
  comparator ← switch_comparator (b.value ++ c.value)
  ok (record { col = local_column a.value; condition = comparator; compare_value = c.value })

-- AND and OR, of which `ts` are the tokens behind. `pre_compare` points to a variable of an earlier
-- round of the loop, whose life has ended: if it is not null, copying `*pre_compare` is undefined
-- behaviour. So nothing is ever added to `operation_vector`, and `pre_op` stays null.
unfoldable pub and_or : Bool → List Token → Result (List CompareCondition × List Token)
and_or false ts = raise sql_wrong
and_or true ts = do
  one ← compares ts
  elim one [
    | true ↦ do c ← new_compare ts; fault
    | false ↦ do
      two ← compares_by_two ts
      elim two [ true ↦ do c ← new_compare_by_two ts; fault | false ↦ raise sql_wrong ]
  ]

-- The loop over the conditions, on fuel for the tokens that are left: WHERE and a comparison are four
-- tokens. `pre_compare` tells whether the pointer is set.
unfoldable pub conditions_loop :
    ℕ → List Token → Bool → List CompareCondition → Result (List CompareCondition × List Token)
conditions_loop zero ts pre_compare conditions = raise out_of_fuel
conditions_loop (suc fuel) [] pre_compare conditions = ok (conditions, [])
conditions_loop (suc fuel) (t ∷ ts) pre_compare conditions =
    let where_condition = (do
      one ← compares ts
      elim one [
        | false ↦ ok (conditions, t ∷ ts)
        | true ↦ do
          c ← new_compare ts
          conditions_loop fuel (drop 3 ts) true (conditions ++ (c ∷ []))
      ]) in
    if is_sign (codes ";") t
    then ok (conditions, t ∷ ts)
    else if is_type t.type keyword_t && ((t.value =str= codes "AND") || (t.value =str= codes "OR"))
    then and_or pre_compare ts
    else if t.value =str= codes "WHERE"
    then where_condition
    else ok (conditions, t ∷ ts)

-- `token_flag == tokens.size() - 1`, and the last token is a semicolon.
abbrev pub is_end : List Token → Bool
is_end [] = false
is_end (t ∷ []) = is_sign (codes ";") t
is_end (t ∷ u ∷ ts) = false

unfoldable pub select_from_one_table_sql : List Token → Result SelectFromOneTableSql
select_from_one_table_sql tokens = do
  (columns, rest) ← select_columns (drop 1 tokens) false []
  t ← token_at rest 1
  (conditions, end) ← conditions_loop (suc (length tokens)) (drop 2 rest) false []
  elim (is_end end) [
    | true ↦ ok (record { table_name = t.value; columns = columns; compare_vector = conditions })
    | false ↦ raise sql_wrong
  ]

-- The tree that AST holds: its node type tells which of the pointers is set.
pub data Ast : Type 0 where
  create_database_ast : CreateDatabaseSql → Ast
  create_table_ast : CreateTableSql → Ast
  insert_into_table_ast : InsertIntoTableSql → Ast
  select_from_one_table_ast : SelectFromOneTableSql → Ast

-- NodeBuilder::BuildNode; `none` is the null pointer. AST's constructor throws for a DELETE.
unfoldable pub build_node : List Token → NodeType → Result (Option Ast)
build_node tokens create_database_node = do
  sql ← create_database_sql tokens
  ok (some (create_database_ast sql))
build_node tokens create_table_node = do
  sql ← create_table_sql tokens
  ok (some (create_table_ast sql))
build_node tokens insert_into_table_node = do
  sql ← insert_into_table_sql tokens
  ok (some (insert_into_table_ast sql))
build_node tokens select_from_one_table_node = do
  sql ← select_from_one_table_sql tokens
  ok (some (select_from_one_table_ast sql))
build_node tokens delete_from_table_node = raise no_ast
build_node tokens drop_database_node = ok none
build_node tokens drop_table_node = ok none
build_node tokens unsupport_node = ok none
