-- ===== src/Parser/SelectForm.antt =====
-- SELECT: the statements that ParseSql recognises.
use tiny_dbms.Base.{ℕ, ◌≡◌, ap, ◌∙◌, inl, inr, ◌⊎◌, Bool, List, [], ◌∷◌, ◌++◌, drop, codes, All, ok}
use tiny_dbms.Lexer.{Token}
use tiny_dbms.Sql.{select_from_one_table_node}
use tiny_dbms.Pattern.{TokenPattern}
use tiny_dbms.Pattern.Spec.{Matches, Sentence}
use tiny_dbms.Pattern.Grammar.{
  keyword, sign, any_id, first_col, select_from_one_table_sql_pattern,
  select_from_one_table_sql_pattern_nec,
}
use tiny_dbms.Parser.Shapes.{one_token}
use tiny_dbms.Parser.Recognise.{AreAllPatterns, parse_sql-IsStatement, IsStatement}
use tiny_dbms.Pattern.{SqlPatternMatcher}
use tiny_dbms.Pattern.Tokens.{Yields-ok}
use tiny_dbms.Parser.{parse_sql}
use tiny_dbms.Parser.Steps.{
  identifier, listed, sign_lem, identifier_lem, word_step, sign_step, id_step, ids_step, then_back,
  then_item,
}
use tiny_dbms.Parser.Conditions.{
  Compared, where_tokens, NextCompared, IsJoined, next_tokens, HasValue, NextHasValue, where_lem,
  next_lem,
}

-- The first of the selected columns is a star or a name.
abbrev pub IsFirst : Token → Type 0
IsFirst t = (t ≡ sign (codes "*")) ⊎ ((name : List ℕ) × (t ≡ identifier name))

-- SELECT first, column, ... FROM table WHERE comparison ... AND comparison ... ;
abbrev pub select_tokens : Token → List (List ℕ) → List ℕ → List Compared → List Token → List Token
select_tokens first names table wheres behind =
    keyword (codes "SELECT")
    ∷ first
    ∷ (listed identifier names
        ++ (keyword (codes "FROM") ∷ identifier table ∷ where_tokens wheres behind))

pub record IsSelect (tokens : List Token) : Type 0 where
  pub first : Token
  pub names : List (List ℕ)
  pub table : List ℕ
  pub wheres : List Compared
  pub nexts : List NextCompared
  pub rest : List Token
  pub is_first : IsFirst first
  pub have_values : All HasValue wheres
  pub nexts_have_values : All NextHasValue nexts
  pub same :
      tokens ≡ select_tokens first names table wheres (next_tokens nexts (sign (codes ";") ∷ rest))

first_lem : (seg : List Token) → Matches first_col seg → (t : Token) × (seg ≡ t ∷ []) × IsFirst t
first_lem seg (inl (x, e, inl h)) = (x, e, inl (sign_lem (codes "*") x h))
first_lem seg (inl (x, e, inr h)) = absurd h
first_lem seg (inr (inl m)) =
    let (x, e, h) = one_token any_id seg m in (x, e, inr (x.value, identifier_lem x h))
first_lem seg (inr (inr h)) = absurd h

abbrev patterns_from : ℕ → List TokenPattern
patterns_from k = drop k select_from_one_table_sql_pattern

abbrev necessary_from : ℕ → List Bool
necessary_from k = drop k select_from_one_table_sql_pattern_nec

-- The conditions, and the semicolon.
ending :
    (tokens rest : List Token)
    → Sentence (patterns_from 5) (necessary_from 5) tokens rest
    → (wheres : List Compared) × (nexts : List NextCompared) × (tokens
        ≡ where_tokens wheres (next_tokens nexts (sign (codes ";") ∷ rest)))
      × All HasValue wheres
      × All NextHasValue nexts
      × All IsJoined nexts
ending tokens rest (fronts, back, e, all, (fronts', back', e', all', words)) =
    let (wheres, listed, are) = where_lem fronts back all in
    let (nexts, listed', next_are, joined) = next_lem fronts' back' all' in
    let (t, e8, end) = sign_step [] [] back' rest (codes ";") words in
    (
      wheres,
      nexts,
      e
          ∙ listed
          ∙ ap (where_tokens wheres)
              (e' ∙ listed' ∙ ap (next_tokens nexts) (e8 ∙ ap (◌∷◌ (sign (codes ";"))) end)),
      are,
      next_are,
      joined,
    )

pub IsStatement-IsSelect :
    (tokens : List Token)
    → IsStatement select_from_one_table_node tokens
    → (i : IsSelect tokens) × All IsJoined i.nexts
IsStatement-IsSelect tokens (rest, words) =
    then_back (word_step (patterns_from 1) (necessary_from 1) tokens rest (codes "SELECT") words)
      (λ t1 e1 w1. behind t1 e1 w1)
  where
    behind :
        (t1 : List Token)
        → tokens ≡ keyword (codes "SELECT") ∷ t1
        → Sentence (patterns_from 1) (necessary_from 1) t1 rest
        → (i : IsSelect tokens) × All IsJoined i.nexts
    behind t1 e1 (front, t2, e2, m, w2) =
        let (first, ef, is) = first_lem front m in
        then_item (ids_step (patterns_from 3) (necessary_from 3) t2 rest w2) (λ names t3 e3 w3.
          then_back (word_step (patterns_from 4) (necessary_from 4) t3 rest (codes "FROM") w3)
            (λ t4 e4 w4.
              then_item (id_step (patterns_from 5) (necessary_from 5) t4 rest w4) (λ table t5 e5 w5.
                let (wheres, nexts, e6, are, next_are, joined) = ending t5 rest w5 in
                (
                  record {
                    first = first;
                    names = names;
                    table = table;
                    wheres = wheres;
                    nexts = nexts;
                    rest = rest;
                    is_first = is;
                    have_values = are;
                    nexts_have_values = next_are;
                    same =
                        e1
                        ∙ ap (◌∷◌ (keyword (codes "SELECT"))) (
                            e2
                            ∙ ap (λ z. z ++ t2) ef
                            ∙ ap (◌∷◌ first) (
                                e3
                                ∙ ap (◌++◌ (listed identifier names)) (
                                    e4
                                    ∙ ap (◌∷◌ (keyword (codes "FROM")))
                                        (e5 ∙ ap (◌∷◌ (identifier table)) e6))));
                  },
                  joined,
                ))))

-- A statement that ParseSql takes for a SELECT has the form of one: the columns, the table, any number
-- of WHERE and a comparison, any number of a joining token and a comparison, and a semicolon, up to a
-- rest. A joining token is any keyword, or a token with the text AND or OR.
pub parse-IsSelect :
    (all_patterns all_patterns' : List SqlPatternMatcher) (tokens : List Token)
    → AreAllPatterns all_patterns
    → parse_sql all_patterns tokens ≡ ok (select_from_one_table_node, all_patterns')
    → (i : IsSelect tokens) × All IsJoined i.nexts
parse-IsSelect all_patterns all_patterns' tokens are parsed =
    let (are', found) =
      Yields-ok _ (parse_sql all_patterns tokens) (select_from_one_table_node, all_patterns') parsed
        (parse_sql-IsStatement all_patterns tokens are) in
    IsStatement-IsSelect tokens found
