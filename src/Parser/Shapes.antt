-- ===== src/Parser/Shapes.antt =====
-- The patterns of the grammar that are one or two tokens long: the tokens that they describe.
use tiny_dbms.Base.{
  ◌≡◌, ap, ◌∙◌, inl, inr, true, List, [], ◌∷◌, ◌++◌, arith, length, length-append, codes,
}
use tiny_dbms.Lexer.{Token}
use tiny_dbms.Pattern.{TokenPattern, Patterns, nil, cons, fits}
use tiny_dbms.Pattern.Spec.{Matches}
use tiny_dbms.Pattern.Sentence.{TakesToken, OptionalsTake}
use tiny_dbms.Pattern.Grammar.{
  tokens_only, tokens_then, any_id, any_value, keyword, sign, id, comparer, value, condition,
  next_condition, operator, word, value_type, create_table_sql_pattern,
  create_table_sql_pattern_nec, insert_into_sql_pattern, insert_into_sql_pattern_nec,
  select_from_one_table_sql_pattern, select_from_one_table_sql_pattern_nec, delete_from_sql_pattern,
  delete_from_sql_pattern_nec,
}

pub one_token :
    (t : Token) (seg : List Token)
    → Matches (tokens_only (t ∷ [])) seg
    → (x : Token) × (seg ≡ x ∷ []) × (fits t x ≡ true)
one_token t seg ([], back, same, fit, none_left) = absurd fit
one_token t seg (x ∷ front, back, same, (fit, empty), none_left) =
    (x, same ∙ (λ i. x ∷ (empty i ++ none_left i)), fit)

pub two_tokens :
    (t u : Token) (seg : List Token)
    → Matches (tokens_only (t ∷ u ∷ [])) seg
    → (x : Token) × (y : Token) × (seg ≡ x ∷ y ∷ []) × (fits t x ≡ true) × (fits u y ≡ true)
two_tokens t u seg ([], back, same, fit, none_left) = absurd fit
two_tokens t u seg (x ∷ [], back, same, (fit, fit'), none_left) = absurd fit'
two_tokens t u seg (x ∷ y ∷ front, back, same, (fit, (fit', empty)), none_left) =
    (x, y, same ∙ (λ i. x ∷ y ∷ (empty i ++ none_left i)), fit, fit')

module _ (t : Token) (ts : List Token) (next : Patterns) where
  template_takes : TakesToken (tokens_then (t ∷ ts) next)
  template_takes seg ([], back, same, fit, all) = absurd fit
  template_takes seg (x ∷ front, back, same, fit, all) = rw same (omega arith)

-- A pattern with no token of its own takes those of its first next pattern.
next_takes :
    (p : TokenPattern) (ps : Patterns) → TakesToken p → TakesToken (tokens_then [] (cons p ps))
next_takes p ps takes seg (front, back, same, empty, (first, others, same', m, all)) = omega (
  arith,
  ap length same,
  length-append front back,
  ap length same',
  length-append first others,
  takes first m,
)

operator_takes : TakesToken operator
operator_takes seg (inl (x, same, fit)) = rw same (omega arith)
operator_takes seg (inr h) = absurd h

-- The optional patterns of the five statements.
comma_takes :
    (t : Token) (next : Patterns) → TakesToken (tokens_then (sign (codes ",") ∷ t ∷ []) next)
comma_takes t next = template_takes (sign (codes ",")) (t ∷ []) next

condition_takes : TakesToken condition
condition_takes =
    next_takes (word (codes "WHERE")) (cons id (cons comparer (cons value nil)))
      (template_takes (keyword (codes "WHERE")) [] nil)

next_condition_takes : TakesToken next_condition
next_condition_takes = next_takes operator (cons id (cons comparer (cons value nil))) operator_takes

pub create_table_takes : OptionalsTake create_table_sql_pattern create_table_sql_pattern_nec
create_table_takes = (comma_takes any_id (cons value_type nil), tt)

pub insert_into_takes : OptionalsTake insert_into_sql_pattern insert_into_sql_pattern_nec
insert_into_takes = (comma_takes any_id nil, (comma_takes any_value nil, tt))

pub select_from_one_table_takes :
    OptionalsTake select_from_one_table_sql_pattern select_from_one_table_sql_pattern_nec
select_from_one_table_takes =
    (comma_takes any_id nil, (condition_takes, (next_condition_takes, tt)))

pub delete_from_takes : OptionalsTake delete_from_sql_pattern delete_from_sql_pattern_nec
delete_from_takes =
    (condition_takes, (next_condition_takes, (template_takes (sign (codes ";")) [] nil, tt)))
