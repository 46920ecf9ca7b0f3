-- ===== src/Parser/Insert.antt =====
-- INSERT: the statements that ParseSql recognises, and what InsertIntoTableSql takes from them.
use tiny_dbms.Base.{
  ℕ, ◌≡◌, refl, ap, ◌∙◌, sym, false, List, [], ◌∷◌, ◌++◌, map, drop, append_assoc, append-nil, some,
  codes, All, arith, ok, ◌=str=◌,
}
use tiny_dbms.Lexer.{Token}
use tiny_dbms.Value.{Value, of_raw}
use tiny_dbms.Sql.{Column, insert_into_table_node}
use tiny_dbms.Pattern.Grammar.{keyword, sign, insert_into_sql_pattern, insert_into_sql_pattern_nec}
use tiny_dbms.Ast.{
  new_column, is_sign, insert_columns, insert_values, insert_into_table_sql, insert_into_table_ast,
  build_node,
}
use tiny_dbms.Pattern.{SqlPatternMatcher}
use tiny_dbms.Pattern.Tokens.{Yields-ok}
use tiny_dbms.Parser.{parse_sql}
use tiny_dbms.Parser.Recognise.{IsStatement, AreAllPatterns, parse_sql-IsStatement}
use tiny_dbms.Parser.Steps.{
  identifier, IsValue, listed, word_step, sign_step, id_step, ids_step, value_step, values_step,
  then_back, then_item, then_value,
}

-- INSERT INTO table (column, ...) VALUES (value, ...);
abbrev pub insert_tokens :
    List ℕ → List ℕ → List (List ℕ) → Token → List Token → List Token → List Token
insert_tokens table c cs v vs rest =
    keyword (codes "INSERT")
    ∷ keyword (codes "INTO")
    ∷ identifier table
    ∷ sign (codes "(")
    ∷ identifier c
    ∷ (listed identifier cs
        ++ (sign (codes ")")
            ∷ keyword (codes "VALUES")
            ∷ sign (codes "(")
            ∷ v
            ∷ (listed (λ t. t) vs ++ (sign (codes ")") ∷ sign (codes ";") ∷ rest))))

pub record IsInsert (tokens : List Token) : Type 0 where
  pub table : List ℕ
  pub column : List ℕ
  pub columns : List (List ℕ)
  pub value : Token
  pub values : List Token
  pub rest : List Token
  pub is_value : IsValue value
  pub are_values : All IsValue values
  pub same : tokens ≡ insert_tokens table column columns value values rest

IsStatement-IsInsert :
    (tokens : List Token) → IsStatement insert_into_table_node tokens → IsInsert tokens
IsStatement-IsInsert tokens (rest, words) =
    let p = λ (k : ℕ). drop k insert_into_sql_pattern in
    let n = λ (k : ℕ). drop k insert_into_sql_pattern_nec in
    then_back (word_step (p 1) (n 1) tokens rest (codes "INSERT") words) (λ t1 e1 w1.
      then_back (word_step (p 2) (n 2) t1 rest (codes "INTO") w1) (λ t2 e2 w2.
        then_item (id_step (p 3) (n 3) t2 rest w2) (λ table t3 e3 w3.
          then_back (sign_step (p 4) (n 4) t3 rest (codes "(") w3) (λ t4 e4 w4.
            then_item (id_step (p 5) (n 5) t4 rest w4) (λ c t5 e5 w5.
              then_item (ids_step (p 6) (n 6) t5 rest w5) (λ cs t6 e6 w6.
                then_back (sign_step (p 7) (n 7) t6 rest (codes ")") w6) (λ t7 e7 w7.
                  then_back (word_step (p 8) (n 8) t7 rest (codes "VALUES") w7) (λ t8 e8 w8.
                    then_back (sign_step (p 9) (n 9) t8 rest (codes "(") w8) (λ t9 e9 w9.
                      then_value (value_step (p 10) (n 10) t9 rest w9) (λ v t10 is e10 w10.
                        then_value (values_step (p 11) (n 11) t10 rest w10) (λ vs t11 are e11 w11.
                          then_back (sign_step (p 12) (n 12) t11 rest (codes ")") w11)
                            (λ t12 e12 w12.
                              then_back (sign_step (p 13) (n 13) t12 rest (codes ";") w12)
                                (λ t13 e13 w13. record {
                                  table = table;
                                  column = c;
                                  columns = cs;
                                  value = v;
                                  values = vs;
                                  rest = t13;
                                  is_value = is;
                                  are_values = are;
                                  same =
                                      rw (e1, e2, e3, e4, e5, e6, e7, e8, e9, e10, e11, e12, e13)
                                        refl;
                                })))))))))))))

-- The loops take the names and the values between the brackets.
insert_columns_lem :
    (cs : List (List ℕ)) (columns : List Column) (rest : List Token)
    → insert_columns (listed identifier cs ++ (sign (codes ")") ∷ rest)) columns
      ≡ (columns ++ map new_column cs, sign (codes ")") ∷ rest)
unfolding insert_columns ◌=str=◌
insert_columns_lem [] columns rest =
    ap (λ z. (z, sign (codes ")") ∷ rest)) (sym (append-nil columns))
insert_columns_lem (c ∷ cs) columns rest =
    insert_columns_lem cs (columns ++ (new_column c ∷ [])) rest
    ∙ ap (λ z. (z, sign (codes ")") ∷ rest))
        (append_assoc columns (new_column c ∷ []) (map new_column cs))

-- A value is no bracket and no comma.
no_sign : (text : List ℕ) (v : Token) → IsValue v → is_sign text v ≡ false
no_sign text v h = ground arith

insert_values_lem :
    (vs : List Token) (values : List Value) (rest : List Token)
    → All IsValue vs
    → insert_values (listed (λ t. t) vs ++ (sign (codes ")") ∷ rest)) values
      ≡ values ++ map (λ (t : Token). of_raw t.value) vs
unfolding insert_values ◌=str=◌
insert_values_lem [] values rest are = sym (append-nil values)
insert_values_lem (v ∷ vs) values rest are =
    rw (no_sign (codes ")") v are.0, no_sign (codes ",") v are.0)
      (insert_values_lem vs (values ++ (of_raw v.value ∷ [])) rest are.1
        ∙ append_assoc values (of_raw v.value ∷ []) (map (λ (t : Token). of_raw t.value) vs))

insert_values_first :
    (v : Token) (vs rest : List Token)
    → IsValue v
    → All IsValue vs
    → insert_values (v ∷ (listed (λ t. t) vs ++ (sign (codes ")") ∷ rest))) []
      ≡ map (λ (t : Token). of_raw t.value) (v ∷ vs)
unfolding insert_values
insert_values_first v vs rest is are =
    rw (no_sign (codes ")") v is, no_sign (codes ",") v is)
      (insert_values_lem vs (of_raw v.value ∷ []) rest are)

pub insert_into_table_sql_lem :
    (table c : List ℕ) (cs : List (List ℕ)) (v : Token) (vs rest : List Token)
    → IsValue v
    → All IsValue vs
    → insert_into_table_sql (insert_tokens table c cs v vs rest)
      ≡ ok (record {
        table_name = table;
        columns = map new_column (c ∷ cs);
        values = map (λ (t : Token). of_raw t.value) (v ∷ vs);
      })
unfolding insert_into_table_sql insert_columns
insert_into_table_sql_lem table c cs v vs rest is are =
    rw
      (insert_columns_lem cs (new_column c ∷ []) (
        keyword (codes "VALUES")
        ∷ sign (codes "(")
        ∷ v
        ∷ (listed (λ t. t) vs ++ (sign (codes ")") ∷ sign (codes ";") ∷ rest))))
      (ap (λ z. ok (record { table_name = table; columns = map new_column (c ∷ cs); values = z }))
        (insert_values_first v vs (sign (codes ";") ∷ rest) is are))

-- A statement that ParseSql takes for an INSERT has that form, and the tree that BuildNode then makes
-- holds the table, the columns and the values that it names, in their order.
pub parse-IsInsert :
    (all_patterns all_patterns' : List SqlPatternMatcher) (tokens : List Token)
    → AreAllPatterns all_patterns
    → parse_sql all_patterns tokens ≡ ok (insert_into_table_node, all_patterns')
    → (i : IsInsert tokens) × (build_node tokens insert_into_table_node
        ≡ ok (
            some (
              insert_into_table_ast (record {
                table_name = i.table;
                columns = map new_column (i.column ∷ i.columns);
                values = map (λ (t : Token). of_raw t.value) (i.value ∷ i.values);
              }))))
unfolding build_node
parse-IsInsert all_patterns all_patterns' tokens are parsed =
    let (are', found) =
      Yields-ok _ (parse_sql all_patterns tokens) (insert_into_table_node, all_patterns') parsed
        (parse_sql-IsStatement all_patterns tokens are) in
    let i = IsStatement-IsInsert tokens found in
    (
      i,
      rw
          (
            i.same,
            insert_into_table_sql_lem i.table i.column i.columns i.value i.values i.rest i.is_value
                i.are_values,
          )
          refl,
    )
