-- ===== src/Parser/CreateTable.antt =====
-- CREATE TABLE: the statements that ParseSql recognises, and what CreateTableSql takes from them.
use tiny_dbms.Base.{
  unknown_type_name, raise, if◌then◌else◌, ℕ, ◌≡◌, refl, ap, ◌∙◌, sym, inl, inr, true, false,
  Bool-cases, ◌⊎◌, List, [], ◌∷◌, ◌++◌, drop, append_assoc, append-nil, none, some, codes, All,
  arith, Result, ok, raise, fault, ◌>>=◌, ◌=str=◌, str_eq→eq,
}
use tiny_dbms.Lexer.{keyword_t, Token}
use tiny_dbms.Value.{int_t, float_t, vchar_t, ValueType, get_value_type_from_str}
use tiny_dbms.Sql.{Column, create_table_node}
use tiny_dbms.Pattern.{SqlPatternMatcher, one_fits, is_type}
use tiny_dbms.Pattern.Spec.{OneFits, Matches, concat, Sentence}
use tiny_dbms.Pattern.Tokens.{Yields-ok}
use tiny_dbms.Pattern.Grammar.{
  keyword, sign, value_type, next_column, create_table_sql_pattern, create_table_sql_pattern_nec,
}
use tiny_dbms.Ast.{
  new_column, is_sign, create_columns, create_table_sql, create_table_ast, build_node,
}
use tiny_dbms.Parser.{parse_sql}
use tiny_dbms.Parser.Recognise.{IsStatement, AreAllPatterns, parse_sql-IsStatement}
use tiny_dbms.Parser.Steps.{
  identifier, sign_lem, identifier_lem, word_step, sign_step, id_step, then_back, then_item,
}

-- A column of the statement: its name, and the token of its type.
pub record ColumnWords : Type 0 where
  pub name : List ℕ
  pub type : Token

-- The token is a keyword, or is spelled like a type.
abbrev pub IsTypeToken : Token → Type 0
IsTypeToken x =
    OneFits
      (keyword (codes "INT")
        ∷ keyword (codes "FLOAT")
        ∷ keyword (codes "VCHAR")
        ∷ keyword (codes "VECTOR")
        ∷ [])
      x

abbrev pub column_tokens : List ColumnWords → List Token → List Token
column_tokens [] rest = rest
column_tokens (c ∷ cs) rest = sign (codes ",") ∷ identifier c.name ∷ c.type ∷ column_tokens cs rest

-- CREATE TABLE table (column type, ...);
abbrev pub create_table_tokens : List ℕ → ColumnWords → List ColumnWords → List Token → List Token
create_table_tokens table c cs rest =
    keyword (codes "CREATE")
    ∷ keyword (codes "TABLE")
    ∷ identifier table
    ∷ sign (codes "(")
    ∷ identifier c.name
    ∷ c.type
    ∷ column_tokens cs (sign (codes ")") ∷ sign (codes ";") ∷ rest)

pub record IsCreateTable (tokens : List Token) : Type 0 where
  pub table : List ℕ
  pub column : ColumnWords
  pub columns : List ColumnWords
  pub rest : List Token
  pub is_type : IsTypeToken column.type
  pub are_types : All (λ (c : ColumnWords). IsTypeToken c.type) columns
  pub same : tokens ≡ create_table_tokens table column columns rest

-- The names of the types, and the type of a column with one of them; any other throws.
abbrev pub type_names : List (List ℕ × ValueType)
type_names = (codes "INT", int_t) ∷ (codes "FLOAT", float_t) ∷ (codes "VCHAR", vchar_t) ∷ []

abbrev pub type_named : List (List ℕ × ValueType) → List ℕ → Result ValueType
type_named [] name = raise unknown_type_name
type_named ((word, t) ∷ names) name =
    let rest = type_named names name in if name =str= word then ok t else rest

get_value_type_from_str_lem :
    (name : List ℕ) → get_value_type_from_str name ≡ type_named type_names name
unfolding get_value_type_from_str
get_value_type_from_str_lem name = refl

-- The columns that these words make.
abbrev pub typed_columns : List ColumnWords → Result (List Column)
typed_columns [] = ok []
typed_columns (c ∷ cs) = do
  t ← type_named type_names c.type.value
  rest ← typed_columns cs
  ok (record (new_column c.name) { value_type = some t } ∷ rest)

type_token :
    (seg : List Token) → Matches value_type seg → (x : Token) × (seg ≡ x ∷ []) × IsTypeToken x
type_token seg (inl m) = m
type_token seg (inr h) = absurd h

next_column_lem :
    (seg : List Token)
    → Matches next_column seg
    → (c : ColumnWords) × (seg ≡ sign (codes ",") ∷ identifier c.name ∷ c.type ∷ [])
      × IsTypeToken c.type
next_column_lem seg ([], back, same, fit, all) = absurd fit
next_column_lem seg (x ∷ [], back, same, (fit, fit'), all) = absurd fit'
next_column_lem seg
      (x ∷ y ∷ front, back, same, (fit, (fit', empty)), (first, others, same', m, done)) =
    let (t, e, is) = type_token first m in
    (
      record { name = y.value; type = t },
      same ∙ (λ i.
          sign_lem (codes ",") x fit i
          ∷ identifier_lem y fit' i
          ∷ (empty i ++ (same' ∙ λ j. e j ++ done j) i)),
      is,
    )

columns_lem :
    (fronts : List (List Token)) (back : List Token)
    → All (Matches next_column) fronts
    → (cs : List ColumnWords) × (concat fronts ++ back ≡ column_tokens cs back)
      × All (λ (c : ColumnWords). IsTypeToken c.type) cs
columns_lem [] back all = ([], refl, tt)
columns_lem (front ∷ fronts) back (m, all) =
    let (cs, e, are) = columns_lem fronts back all in
    let (c, e', is) = next_column_lem front m in
    (c ∷ cs, append_assoc front (concat fronts) back ∙ (λ i. e' i ++ e i), (is, are))

IsStatement-IsCreateTable :
    (tokens : List Token) → IsStatement create_table_node tokens → IsCreateTable tokens
IsStatement-IsCreateTable tokens (rest, words) =
    let p = λ (k : ℕ). drop k create_table_sql_pattern in
    let n = λ (k : ℕ). drop k create_table_sql_pattern_nec in
    then_back (word_step (p 1) (n 1) tokens rest (codes "CREATE") words) (λ t1 e1 w1.
      then_back (word_step (p 2) (n 2) t1 rest (codes "TABLE") w1) (λ t2 e2 w2.
        then_item (id_step (p 3) (n 3) t2 rest w2) (λ table t3 e3 w3.
          then_back (sign_step (p 4) (n 4) t3 rest (codes "(") w3) (λ t4 e4 w4.
            then_item (id_step (p 5) (n 5) t4 rest w4)
              (λ name t5 e5 w5. behind table name t5 (e1 ∙ rw (e2, e3, e4, e5) refl) w5)))))
  where
    behind :
        (table name : List ℕ) (t5 : List Token)
        → tokens
          ≡ keyword (codes "CREATE")
            ∷ keyword (codes "TABLE")
            ∷ identifier table
            ∷ sign (codes "(")
            ∷ identifier name
            ∷ t5
        → Sentence (drop 5 create_table_sql_pattern) (drop 5 create_table_sql_pattern_nec) t5 rest
        → IsCreateTable tokens
    behind table name t5 same (front, back, e6, m, (fronts, back', e7, all, w7)) =
        let (x, e, is) = type_token front m in
        let (cs, listed, are) = columns_lem fronts back' all in
        then_back
          (sign_step (drop 8 create_table_sql_pattern) (drop 8 create_table_sql_pattern_nec) back'
            rest (codes ")") w7)
          (λ t8 e8 w8. then_back (sign_step [] [] t8 rest (codes ";") w8) (λ t9 e9 w9. record {
            table = table;
            column = record { name = name; type = x };
            columns = cs;
            rest = t9;
            is_type = is;
            are_types = are;
            same =
                same
                ∙ ap
                    (λ z.
                      keyword (codes "CREATE")
                      ∷ keyword (codes "TABLE")
                      ∷ identifier table
                      ∷ sign (codes "(")
                      ∷ identifier name
                      ∷ z)
                    (e6
                      ∙ ap (λ z. z ++ back) e
                      ∙ ap (◌∷◌ x) (
                          e7
                          ∙ listed
                          ∙ ap (column_tokens cs) (e8 ∙ ap (◌∷◌ (sign (codes ")"))) e9)));
          }))

-- The token of a type is no bracket and no comma.
spelled :
    (text word : List ℕ) (x : Token)
    → (word =str= text) ≡ false
    → one_fits (keyword word) x ≡ true
    → is_sign text x ≡ false
spelled text word x differ h = elim (Bool-cases (is_type x.type keyword_t)) [
  | inl word_type ↦ ground arith
  | inr other ↦
      let same : (x.value ≡ word) = str_eq→eq x.value word (ground arith) in
      let differ' : ((x.value =str= text) ≡ false) = rw same differ in ground arith
]

type_no_sign :
    (text : List ℕ) (x : Token)
    → text ≡ codes ")" ⊎ text ≡ codes ","
    → IsTypeToken x
    → is_sign text x ≡ false
unfolding ◌=str=◌
type_no_sign text x (inl e) (inl h) = spelled text (codes "INT") x (rw e refl) h
type_no_sign text x (inl e) (inr (inl h)) = spelled text (codes "FLOAT") x (rw e refl) h
type_no_sign text x (inl e) (inr (inr (inl h))) = spelled text (codes "VCHAR") x (rw e refl) h
type_no_sign text x (inl e) (inr (inr (inr (inl h)))) =
    spelled text (codes "VECTOR") x (rw e refl) h
type_no_sign text x (inl e) (inr (inr (inr (inr h)))) = absurd h
type_no_sign text x (inr e) (inl h) = spelled text (codes "INT") x (rw e refl) h
type_no_sign text x (inr e) (inr (inl h)) = spelled text (codes "FLOAT") x (rw e refl) h
type_no_sign text x (inr e) (inr (inr (inl h))) = spelled text (codes "VCHAR") x (rw e refl) h
type_no_sign text x (inr e) (inr (inr (inr (inl h)))) =
    spelled text (codes "VECTOR") x (rw e refl) h
type_no_sign text x (inr e) (inr (inr (inr (inr h)))) = absurd h

put_behind :
    (before : List Column) (c : Column) (m : Result (List Column))
    → (m >>= λ cs. ok ((before ++ (c ∷ [])) ++ cs))
      ≡ ((m >>= λ cs. ok (c ∷ cs)) >>= λ cs. ok (before ++ cs))
put_behind before c (ok cs) = ap ok (append_assoc before (c ∷ []) cs)
put_behind before c (raise e) = refl
put_behind before c fault = refl

-- The loop of CreateTableSql makes these columns.
create_columns_lem :
    (cs : List ColumnWords) (before : List Column) (rest : List Token)
    → All (λ (c : ColumnWords). IsTypeToken c.type) cs
    → create_columns (column_tokens cs (sign (codes ")") ∷ rest)) none before
      ≡ (typed_columns cs >>= λ columns. ok (before ++ columns))
unfolding create_columns ◌=str=◌
create_columns_lem [] before rest are = ap ok (sym (append-nil before))
create_columns_lem (c ∷ cs) before rest (is, are) =
    rw
      (
        type_no_sign (codes ")") c.type (inl refl) is,
        type_no_sign (codes ",") c.type (inr refl) is,
        get_value_type_from_str_lem c.type.value,
      )
      (typed (type_named type_names c.type.value)
        (λ before'. create_columns_lem cs before' rest are))
  where
    typed :
        (m : Result ValueType)
        → ((before' : List Column)
            → create_columns (column_tokens cs (sign (codes ")") ∷ rest)) none before'
              ≡ (typed_columns cs >>= λ columns. ok (before' ++ columns)))
        → (m >>= λ t.
            create_columns
              (column_tokens cs (sign (codes ")") ∷ rest))
              none
              (before ++ (record (new_column c.name) { value_type = some t } ∷ [])))
          ≡ ((m >>= λ t.
                (typed_columns cs >>= λ columns.
                ok (record (new_column c.name) { value_type = some t } ∷ columns)))
              >>= λ columns. ok (before ++ columns))
    typed (ok t) further =
        further (before ++ (record (new_column c.name) { value_type = some t } ∷ []))
        ∙ put_behind before (record (new_column c.name) { value_type = some t }) (typed_columns cs)
    typed (raise e) further = refl
    typed fault further = refl

into_tree :
    (table : List ℕ) (m : Result (List Column))
    → (((m >>= λ cs. ok cs) >>= λ cs. ok (record { table_name = table; columns = cs })) >>= λ sql.
        ok (some (create_table_ast sql)))
      ≡ (m >>= λ cs. ok (some (create_table_ast (record { table_name = table; columns = cs }))))
into_tree table (ok cs) = refl
into_tree table (raise e) = refl
into_tree table fault = refl

create_table_sql_lem :
    (table : List ℕ) (c : ColumnWords) (cs : List ColumnWords) (rest : List Token)
    → IsTypeToken c.type
    → All (λ (c : ColumnWords). IsTypeToken c.type) cs
    → build_node (create_table_tokens table c cs rest) create_table_node ≡ (
        typed_columns (c ∷ cs) >>= λ columns.
        ok (some (create_table_ast (record { table_name = table; columns = columns }))))
unfolding build_node create_table_sql create_columns ◌=str=◌
create_table_sql_lem table c cs rest is are =
    ap
      (λ (m : Result (List Column)).
        (m >>= λ cs. ok (record { table_name = table; columns = cs })) >>= λ sql.
        ok (some (create_table_ast sql)))
      (create_columns_lem (c ∷ cs) [] (sign (codes ";") ∷ rest) (is, are))
    ∙ into_tree table (typed_columns (c ∷ cs))

-- A statement that ParseSql takes for a CREATE TABLE has that form, and BuildNode makes the tree with
-- the table and the columns that it names, in their order and of their types. A type that is none of
-- INT, FLOAT and VCHAR, though the parser accepts any keyword, throws.
pub parse-IsCreateTable :
    (all_patterns all_patterns' : List SqlPatternMatcher) (tokens : List Token)
    → AreAllPatterns all_patterns
    → parse_sql all_patterns tokens ≡ ok (create_table_node, all_patterns')
    → (i : IsCreateTable tokens) × (build_node tokens create_table_node ≡ (
        typed_columns (i.column ∷ i.columns) >>= λ columns.
        ok (some (create_table_ast (record { table_name = i.table; columns = columns })))))
parse-IsCreateTable all_patterns all_patterns' tokens are parsed =
    let (are', found) =
      Yields-ok _ (parse_sql all_patterns tokens) (create_table_node, all_patterns') parsed
        (parse_sql-IsStatement all_patterns tokens are) in
    let i = IsStatement-IsCreateTable tokens found in
    (
      i,
      ap (λ ts. build_node ts create_table_node) i.same
          ∙ create_table_sql_lem i.table i.column i.columns i.rest i.is_type i.are_types,
    )
