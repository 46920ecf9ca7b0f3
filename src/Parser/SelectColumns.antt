-- ===== src/Parser/SelectColumns.antt =====
-- SELECT: the columns that SelectFromOneTableSql takes from a statement.
use std.Path.{subst}
use tiny_dbms.Base.{
  ℕ, ◌≡◌, refl, ap, ◌∙◌, sym, inl, inr, false, List, [], ◌∷◌, ◌++◌, map, append_assoc, append-nil,
  codes, ok, ◌=str=◌,
}
use tiny_dbms.Lexer.{Token}
use tiny_dbms.Sql.{Column}
use tiny_dbms.Pattern.Grammar.{keyword, sign}
use tiny_dbms.Ast.{new_column, select_columns}
use tiny_dbms.Parser.Steps.{identifier, listed}
use tiny_dbms.Parser.SelectForm.{IsFirst}

-- The selected columns. What is compared with the star is the token behind each, a comma or FROM.
select_columns_lem :
    (names : List (List ℕ)) (columns : List Column) (rest : List Token)
    → select_columns (listed identifier names ++ (keyword (codes "FROM") ∷ rest)) false columns
      ≡ ok (columns ++ map new_column names, keyword (codes "FROM") ∷ rest)
unfolding select_columns ◌=str=◌
select_columns_lem [] columns rest =
    ap (λ z. ok (z, keyword (codes "FROM") ∷ rest)) (sym (append-nil columns))
select_columns_lem (name ∷ []) columns rest = refl
select_columns_lem (name ∷ name' ∷ names) columns rest =
    select_columns_lem (name' ∷ names) (columns ++ (new_column name ∷ [])) rest
    ∙ ap (λ z. ok (z, keyword (codes "FROM") ∷ rest))
        (append_assoc columns (new_column name ∷ []) (map new_column (name' ∷ names)))

abbrev SelectsFirst : List (List ℕ) → List Token → Token → Type 0
SelectsFirst names rest first =
    select_columns (first ∷ (listed identifier names ++ (keyword (codes "FROM") ∷ rest))) false []
    ≡ ok (map new_column (first.value ∷ names), keyword (codes "FROM") ∷ rest)

star_first :
    (names : List (List ℕ)) (rest : List Token) → SelectsFirst names rest (sign (codes "*"))
unfolding select_columns ◌=str=◌
star_first [] rest = refl
star_first (name ∷ names) rest =
    select_columns_lem (name ∷ names) (new_column (codes "*") ∷ []) rest

name_first :
    (name : List ℕ) (names : List (List ℕ)) (rest : List Token)
    → SelectsFirst names rest (identifier name)
unfolding select_columns ◌=str=◌
name_first name [] rest = refl
name_first name (name' ∷ names) rest =
    select_columns_lem (name' ∷ names) (new_column name ∷ []) rest

pub select_columns_first :
    (first : Token) (names : List (List ℕ)) (rest : List Token)
    → IsFirst first
    → SelectsFirst names rest first
select_columns_first first names rest (inl e) =
    subst (SelectsFirst names rest) (sym e) (star_first names rest)
select_columns_first first names rest (inr (name, e)) =
    subst (SelectsFirst names rest) (sym e) (name_first name names rest)
