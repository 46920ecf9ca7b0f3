-- ===== src/Parser/InsertBack.antt =====
-- INSERT: every statement with the form of one is recognised, and its tree is made.
use tiny_dbms.Base.{
  ℕ, suc, ◌≡◌, refl, true, false, List, [], ◌∷◌, map, drop, length, some, codes, All, arith, ok,
  ◌=str=◌,
}
use tiny_dbms.Lexer.{Token}
use tiny_dbms.Value.{of_raw}
use tiny_dbms.Sql.{NodeType, insert_into_table_node}
use tiny_dbms.Pattern.{SqlPatternMatcher, fits, match_sql}
use tiny_dbms.Pattern.Grammar.{
  keyword, sign, any_id, any_value, insert_into_sql_pattern, insert_into_sql_pattern_nec,
  create_database_sql_pattern, create_database_sql_pattern_nec, create_table_sql_pattern,
  create_table_sql_pattern_nec,
}
use tiny_dbms.Pattern.Accept.{
  Accepts, accept_one, accept_many, accept_end, match_sql-Accepts, match_sql_other,
}
use tiny_dbms.Ast.{new_column, insert_into_table_ast, build_node}
use tiny_dbms.Parser.{parse_loop, parse_sql}
use tiny_dbms.Parser.Recognise.{all_patterns_at_start}
use tiny_dbms.Parser.Steps.{identifier, IsValue}
use tiny_dbms.Parser.Insert.{insert_tokens, insert_into_table_sql_lem}

fit_ids : (names : List (List ℕ)) → All (λ name. fits any_id (identifier name) ≡ true) names
fit_ids [] = tt
fit_ids (name ∷ names) = (refl, fit_ids names)

fit_value : (v : Token) → IsValue v → fits any_value v ≡ true
fit_value v h = h

fit_values : (vs : List Token) → All IsValue vs → All (λ v. fits any_value v ≡ true) vs
fit_values [] are = tt
fit_values (v ∷ vs) (is, are) = (is, fit_values vs are)

loop_other :
    (m : SqlPatternMatcher) (ms ms' : List SqlPatternMatcher) (type found : NodeType)
    (types : List NodeType) (tokens : List Token)
    → match_sql m tokens ≡ ok (false, m)
    → parse_loop ms types tokens ≡ ok (found, ms')
    → parse_loop (m ∷ ms) (type ∷ types) tokens ≡ ok (found, m ∷ ms')
unfolding parse_loop
loop_other m ms ms' type found types tokens e rest = rw (e, rest) refl

loop_hit :
    (m m' : SqlPatternMatcher) (ms : List SqlPatternMatcher) (type : NodeType)
    (types : List NodeType) (tokens : List Token)
    → match_sql m tokens ≡ ok (true, m')
    → parse_loop (m ∷ ms) (type ∷ types) tokens ≡ ok (type, m' ∷ ms)
unfolding parse_loop
loop_hit m m' ms type types tokens e = rw e refl

module _ (table c : List ℕ) (cs : List (List ℕ)) (v : Token) (vs rest : List Token) (is : IsValue v)
    (are : All IsValue vs) where
  abbrev words : List Token
  words = insert_tokens table c cs v vs rest

  abbrev fuel : ℕ
  fuel = suc (length words)

  accepted : Accepts fuel insert_into_sql_pattern insert_into_sql_pattern_nec words 0
  unfolding ◌=str=◌
  accepted =
      accept_one (keyword (codes "INSERT")) (keyword (codes "INSERT")) fuel _ _ words 0 _ refl refl
        (λ e1.
          accept_one (keyword (codes "INTO")) (keyword (codes "INTO")) fuel _ _ words _ _ e1 refl
            (λ e2. accept_one any_id (identifier table) fuel _ _ words _ _ e2 refl (λ e3.
              accept_one (sign (codes "(")) (sign (codes "(")) fuel _ _ words _ _ e3 refl (λ e4.
                accept_one any_id (identifier c) fuel _ _ words _ _ e4 refl (λ e5.
                  accept_many (sign (codes ",")) any_id identifier refl cs fuel _ _ words _
                    (sign (codes ")")) _ e5 (fit_ids cs) refl (omega arith)
                    (λ k e6.
                      accept_one (sign (codes ")")) (sign (codes ")")) fuel _ _ words _ _ e6 refl
                        (λ e7.
                          accept_one (keyword (codes "VALUES")) (keyword (codes "VALUES")) fuel _ _
                            words _ _ e7 refl
                            (λ e8.
                              accept_one (sign (codes "(")) (sign (codes "(")) fuel _ _ words _ _ e8
                                refl
                                (λ e9. accept_one any_value v fuel _ _ words _ _ e9 is (λ e10.
                                  accept_many (sign (codes ",")) any_value (λ t. t) refl vs fuel _ _
                                    words _ (sign (codes ")")) _ e10 (fit_values vs are) refl
                                    (omega arith)
                                    (λ k' e11.
                                      accept_one (sign (codes ")")) (sign (codes ")")) fuel _ _
                                        words _ _ e11 refl
                                        (λ e12.
                                          accept_one (sign (codes ";")) (sign (codes ";")) fuel _ _
                                            words _ _ e12 refl
                                            (λ e13. accept_end fuel words _)))))))))))))

  -- Every statement with the form of an INSERT, whatever stands behind its semicolon, is taken for one
  -- by the matchers with which the program starts, and BuildNode makes the tree with the table, the
  -- columns and the values that it was written with, in their order.
  pub parse_sql-insert_tokens :
      (all_patterns' : List SqlPatternMatcher) × (parse_sql all_patterns_at_start
          (insert_tokens table c cs v vs rest)
        ≡ ok (insert_into_table_node, all_patterns'))
      × (build_node (insert_tokens table c cs v vs rest) insert_into_table_node
          ≡ ok (
              some (
                insert_into_table_ast (record {
                  table_name = table;
                  columns = map new_column (c ∷ cs);
                  values = map (λ (t : Token). of_raw t.value) (v ∷ vs);
                }))))
  unfolding parse_sql build_node ◌=str=◌
  parse_sql-insert_tokens =
      let back = drop 1 words in
      let (m', hit) =
        match_sql-Accepts
          (record { paterns = insert_into_sql_pattern; necessary = insert_into_sql_pattern_nec })
          words accepted in
      (
        _,
        loop_other _ _ _ _ _ _ words
            (match_sql_other (keyword (codes "CREATE")) (keyword (codes "INSERT"))
              (drop 1 create_database_sql_pattern) (drop 1 create_database_sql_pattern_nec) back
              refl)
            (loop_other _ _ _ _ _ _ words
              (match_sql_other (keyword (codes "CREATE")) (keyword (codes "INSERT"))
                (drop 1 create_table_sql_pattern) (drop 1 create_table_sql_pattern_nec) back refl)
              (loop_hit _ m' _ _ _ words hit)),
        rw (insert_into_table_sql_lem table c cs v vs rest is are) refl,
      )
