-- ===== src/Parser/Select.antt =====
-- SELECT: the tree that BuildNode makes of the statements that ParseSql recognises.
use std.Path.{subst}
use tiny_dbms.Base.{
  ℕ, suc, ◌+◌, ◌≤◌, ◌≡◌, refl, ap, ◌∙◌, inl, inr, ◌⊎◌, Bool, true, false, List, [], ◌∷◌, map, drop,
  length, length-append, ◌-◌, codes, All, arith, some, Result, ok, raise, fault, ◌>>=◌, ◌=str=◌,
  sql_wrong,
}
use tiny_dbms.Lexer.{Token}
use tiny_dbms.Sql.{
  Column, Comparator, bigger, less, equal, not_equal, CompareCondition, switch_comparator,
  select_from_one_table_node,
}
use tiny_dbms.Pattern.Grammar.{keyword, sign}
use tiny_dbms.Ast.{
  SelectFromOneTableSql, new_column, compares, compares_by_two, new_compare, new_compare_by_two,
  and_or, conditions_loop, is_end, token_at, select_from_one_table_sql, select_from_one_table_ast,
  build_node,
}
use tiny_dbms.Parser.Steps.{identifier, listed}
use tiny_dbms.Parser.Conditions.{
  Compared, comparer_tokens, compared_tokens, where_tokens, NextCompared, next_tokens, HasValue,
  NextHasValue,
}
use tiny_dbms.Parser.SelectForm.{IsFirst, select_tokens, IsSelect}
use tiny_dbms.Parser.SelectColumns.{select_columns_first}
use tiny_dbms.Parser.SelectConditions.{IsSingle, condition_of, any_before, conditions_lem}

-- What the tree is to be: the names, and the comparisons.
abbrev pub select_of : {tokens : List Token} → IsSelect tokens → SelectFromOneTableSql
select_of i = record {
  table_name = i.table;
  columns = map new_column (i.first.value ∷ i.names);
  compare_vector = map condition_of i.wheres;
}

abbrev finish_select :
    List ℕ
    → List Column
    → Result (List CompareCondition × List Token)
    → Result SelectFromOneTableSql
finish_select table columns loop = do
  (conditions, end) ← loop
  elim (is_end end) [
    | true ↦ ok (record { table_name = table; columns = columns; compare_vector = conditions })
    | false ↦ raise sql_wrong
  ]

-- The names are read; the conditions are left to the loop.
select_from :
    (first : Token) (names : List (List ℕ)) (table : List ℕ) (wheres : List Compared)
    (behind : List Token)
    → IsFirst first
    → select_from_one_table_sql (select_tokens first names table wheres behind)
      ≡ finish_select table (map new_column (first.value ∷ names)) (
          conditions_loop
            (suc (length (select_tokens first names table wheres behind)))
            (where_tokens wheres behind)
            false
            [])
unfolding select_from_one_table_sql
select_from first names table wheres behind is =
    ap
      (λ (m : Result (List Column × List Token)). m >>= λ r.
        (token_at r.1 1 >>= λ t. finish_select t.value r.0 (
          conditions_loop (suc (length (select_tokens first names table wheres behind)))
            (drop 2 r.1) false [])))
      (select_columns_first first names (identifier table ∷ where_tokens wheres behind) is)

length-where_tokens :
    (cs : List Compared) (rest : List Token) → length cs ≤ length (where_tokens cs rest)
length-where_tokens [] rest = omega arith
length-where_tokens (c ∷ cs) rest = by_comparator c.comparator (length-where_tokens cs rest)
  where
    by_comparator :
        (k : Comparator)
        → length cs ≤ length (where_tokens cs rest)
        → suc (length cs)
          ≤ length (
              keyword (codes "WHERE")
              ∷ identifier c.name
              ∷ comparer_tokens k (c.compared ∷ where_tokens cs rest))
    by_comparator bigger ih = omega (arith, ih)
    by_comparator less ih = omega (arith, ih)
    by_comparator equal ih = omega (arith, ih)
    by_comparator not_equal ih = omega (arith, ih)

-- Fuel for all of the tokens is enough for the comparisons, with some to spare.
fuel_split :
    (first : Token) (names : List (List ℕ)) (table : List ℕ) (wheres : List Compared)
    (behind : List Token)
    → (k : ℕ) × (suc (length (select_tokens first names table wheres behind))
        ≡ length wheres + suc k)
fuel_split first names table wheres behind = (
  length (select_tokens first names table wheres behind) - length wheres,
  omega (
    arith,
    length-where_tokens wheres behind,
    length-append (listed identifier names)
        (keyword (codes "FROM") ∷ identifier table ∷ where_tokens wheres behind),
  ),
)

-- What the loop does behind comparisons of one token each is what the tree comes from.
select_behind :
    (first : Token) (names : List (List ℕ)) (table : List ℕ) (wheres : List Compared)
    (behind : List Token) (r : Result (List CompareCondition × List Token))
    → IsFirst first
    → All HasValue wheres
    → All IsSingle wheres
    → ((k : ℕ)
        → conditions_loop (suc k) behind (any_before false wheres) (map condition_of wheres) ≡ r)
    → select_from_one_table_sql (select_tokens first names table wheres behind)
      ≡ finish_select table (map new_column (first.value ∷ names)) r
select_behind first names table wheres behind r is have single runs =
    let (k, enough) = fuel_split first names table wheres behind in
    select_from first names table wheres behind is
    ∙ ap (finish_select table (map new_column (first.value ∷ names))) (
        (λ i. conditions_loop (enough i) (where_tokens wheres behind) false [])
        ∙ conditions_lem wheres (suc k) behind false [] have single
        ∙ runs k)

-- At the semicolon the loop ends, whatever was compared before it.
loop_end :
    (k : ℕ) (pre : Bool) (conditions : List CompareCondition)
    → conditions_loop (suc k) (sign (codes ";") ∷ []) pre conditions
      ≡ ok (conditions, sign (codes ";") ∷ [])
unfolding conditions_loop ◌=str=◌
loop_end k pre conditions = refl

build_select :
    (tokens : List Token) (sql : SelectFromOneTableSql)
    → select_from_one_table_sql tokens ≡ ok sql
    → build_node tokens select_from_one_table_node ≡ ok (some (select_from_one_table_ast sql))
unfolding build_node
build_select tokens sql e = rw e refl

-- Of a statement with the form of a SELECT, with no AND and no OR, with comparators of one sign and
-- nothing behind the semicolon, BuildNode makes the tree with the names and the comparisons of the
-- statement, in their order.
pub build_node-IsSelect :
    (tokens : List Token) (i : IsSelect tokens)
    → All IsSingle i.wheres
    → i.nexts ≡ []
    → i.rest ≡ []
    → build_node tokens select_from_one_table_node
      ≡ ok (some (select_from_one_table_ast (select_of i)))
unfolding ◌=str=◌
build_node-IsSelect tokens i single no_next no_rest = build_select tokens (select_of i) (
    ap select_from_one_table_sql (
      i.same ∙ (λ j.
        select_tokens i.first i.names i.table i.wheres
          (next_tokens (no_next j) (sign (codes ";") ∷ no_rest j))))
    ∙ select_behind i.first i.names i.table i.wheres (sign (codes ";") ∷ [])
        (ok (map condition_of i.wheres, sign (codes ";") ∷ [])) i.is_first i.have_values single
        (λ k. loop_end k (any_before false i.wheres) (map condition_of i.wheres)))

-- The token that the loop takes for AND or OR.
abbrev pub IsAndOr : Token → Type 0
IsAndOr t = (t ≡ keyword (codes "AND")) ⊎ (t ≡ keyword (codes "OR"))

and_or_lem :
    (c : Compared) (rest : List Token) → HasValue c → and_or true (compared_tokens c rest) ≡ fault
unfolding and_or compares compares_by_two new_compare new_compare_by_two switch_comparator ◌=str=◌
and_or_lem c rest h = by_comparator c.comparator
  where
    by_comparator :
        (k : Comparator)
        → and_or true (identifier c.name ∷ comparer_tokens k (c.compared ∷ rest)) ≡ fault
    by_comparator bigger = rw h refl
    by_comparator less = rw h refl
    by_comparator equal = rw h refl
    by_comparator not_equal = rw h refl

loop_and_or :
    (k : ℕ) (t : Token) (c : Compared) (rest : List Token) (conditions : List CompareCondition)
    → IsAndOr t
    → HasValue c
    → conditions_loop (suc k) (t ∷ compared_tokens c rest) true conditions ≡ fault
unfolding conditions_loop ◌=str=◌
loop_and_or k t c rest conditions (inl e) h = rw (e, and_or_lem c rest h) refl
loop_and_or k t c rest conditions (inr e) h = rw (e, and_or_lem c rest h) refl

build_select_fault :
    (tokens : List Token)
    → select_from_one_table_sql tokens ≡ fault
    → build_node tokens select_from_one_table_node ≡ fault
unfolding build_node
build_select_fault tokens e = rw e refl

-- Of a statement with the form of a SELECT in which comparisons with comparators of one sign stand, and
-- behind them AND or OR with another comparison, BuildNode makes no tree: it reads a comparison whose
-- life has ended, which is undefined behaviour.
pub build_node-IsAndOr :
    (tokens : List Token) (i : IsSelect tokens) (c : Compared) (cs : List Compared)
    (n : NextCompared) (ns : List NextCompared)
    → i.wheres ≡ c ∷ cs
    → All IsSingle i.wheres
    → i.nexts ≡ n ∷ ns
    → IsAndOr n.operator_token
    → build_node tokens select_from_one_table_node ≡ fault
build_node-IsAndOr tokens i c cs n ns some_where single some_next is_and_or =
    let more = next_tokens ns (sign (codes ";") ∷ i.rest) in
    let valued : All NextHasValue (n ∷ ns) =
      subst (All NextHasValue) some_next i.nexts_have_values in
    build_select_fault tokens (
      ap select_from_one_table_sql (
        i.same ∙ (λ j.
          select_tokens i.first i.names i.table i.wheres
            (next_tokens (some_next j) (sign (codes ";") ∷ i.rest))))
      ∙ select_behind i.first i.names i.table i.wheres
          (n.operator_token ∷ compared_tokens n.comparison more) fault i.is_first i.have_values
          single
          (λ k.
            ap
              (λ z.
                conditions_loop (suc k) (n.operator_token ∷ compared_tokens n.comparison more)
                  (any_before false z) (map condition_of i.wheres))
              some_where
            ∙ loop_and_or k n.operator_token n.comparison more (map condition_of i.wheres) is_and_or
                valued.0))
