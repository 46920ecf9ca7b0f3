-- ===== src/Parser/Recognise.antt =====
-- ParseSql: the node type that it answers with tells how the statement is built.
use std.Path.{subst}
use tiny_dbms.Base.{◌≡◌, refl, ◌∙◌, Bool, true, false, List, [], ◌∷◌, ok, ◌>>=◌, map}
use tiny_dbms.Lexer.{Token}
use tiny_dbms.Sql.{
  NodeType, create_database_node, create_table_node, insert_into_table_node,
  select_from_one_table_node, drop_database_node, drop_table_node, delete_from_table_node,
  unsupport_node,
}
use tiny_dbms.Pattern.{TokenPattern, SqlPatternMatcher, matcher, match_sql}
use tiny_dbms.Pattern.Spec.{Sentence}
use tiny_dbms.Pattern.Tokens.{Yields, Yields-bind, Yields-map, IfHit}
use tiny_dbms.Pattern.Match.{forget}
use tiny_dbms.Pattern.Sentence.{
  OptionalsTake, Alike, Sentence-Alike, OptionalsTake-Alike, match_sql-Sentence,
}
use tiny_dbms.Pattern.Grammar.{
  create_database_sql_pattern, create_database_sql_pattern_nec, create_table_sql_pattern,
  create_table_sql_pattern_nec, insert_into_sql_pattern, insert_into_sql_pattern_nec,
  select_from_one_table_sql_pattern, select_from_one_table_sql_pattern_nec, delete_from_sql_pattern,
  delete_from_sql_pattern_nec,
}
use tiny_dbms.Parser.{parse_loop, parse_sql, start_patterns, all_patterns_node_type}
use tiny_dbms.Parser.Shapes.{
  create_table_takes, insert_into_takes, select_from_one_table_takes, delete_from_takes,
}

-- The tokens of a statement of a kind, and what may follow it.
abbrev pub Described : List TokenPattern → List Bool → List Token → Type 0
Described ps necs tokens = (rest : List Token) × Sentence ps necs tokens rest

abbrev pub IsStatement : NodeType → List Token → Type 0
IsStatement create_database_node tokens =
    Described create_database_sql_pattern create_database_sql_pattern_nec tokens
IsStatement create_table_node tokens =
    Described create_table_sql_pattern create_table_sql_pattern_nec tokens
IsStatement insert_into_table_node tokens =
    Described insert_into_sql_pattern insert_into_sql_pattern_nec tokens
IsStatement select_from_one_table_node tokens =
    Described select_from_one_table_sql_pattern select_from_one_table_sql_pattern_nec tokens
IsStatement delete_from_table_node tokens =
    Described delete_from_sql_pattern delete_from_sql_pattern_nec tokens
IsStatement drop_database_node tokens = ⊥
IsStatement drop_table_node tokens = ⊥
IsStatement unsupport_node tokens = Unit

-- A matcher for a kind of statement, in whatever state earlier statements have left its patterns.
pub record IsMatcher (type : NodeType) (m : SqlPatternMatcher) : Type 0 where
  pub patterns : List TokenPattern
  pub necs : List Bool
  pub alike : Alike m.paterns patterns
  pub same : m.necessary ≡ necs
  pub takes : OptionalsTake patterns necs
  pub means : (tokens : List Token) → Described patterns necs tokens → IsStatement type tokens

abbrev pub AreMatchers : List NodeType → List SqlPatternMatcher → Type 0
AreMatchers types [] = Unit
AreMatchers [] (m ∷ ms) = ⊥
AreMatchers (type ∷ types) (m ∷ ms) = IsMatcher type m × AreMatchers types ms

abbrev Recognised : List NodeType → List Token → NodeType × List SqlPatternMatcher → Type 0
Recognised types tokens (type, ms) = AreMatchers types ms × IsStatement type tokens

parse_loop_lem :
    (ms : List SqlPatternMatcher) (types : List NodeType) (tokens : List Token)
    → AreMatchers types ms
    → Yields (Recognised types tokens) (parse_loop ms types tokens)
unfolding parse_loop
parse_loop_lem [] types tokens are = (tt, tt)
parse_loop_lem (m ∷ ms) [] tokens are = tt
parse_loop_lem (m ∷ ms) (type ∷ types) tokens (is, are) =
    Yields-bind
      (λ (r : Bool × SqlPatternMatcher).
        (r.1.necessary ≡ m.necessary)
        × (map forget r.1.paterns ≡ map forget m.paterns)
        × IfHit r.0 (Described m.paterns m.necessary tokens))
      (Recognised (type ∷ types) tokens) (match_sql m tokens) _
      (match_sql-Sentence m tokens
        (rw is.same (OptionalsTake-Alike m.paterns is.patterns is.necs is.alike is.takes)))
      (λ r (necs, shape, h).
        answered r.1 (parse_loop_lem ms types tokens are) (kept r.1 necs shape) r.0 h)
  where
    kept :
        (m' : SqlPatternMatcher)
        → m'.necessary ≡ m.necessary
        → map forget m'.paterns ≡ map forget m.paterns
        → IsMatcher type m'
    kept m' necs shape = record {
      patterns = is.patterns;
      necs = is.necs;
      alike = shape ∙ is.alike;
      same = necs ∙ is.same;
      takes = is.takes;
      means = is.means;
    }

    answered :
        (m' : SqlPatternMatcher)
        → Yields (Recognised types tokens) (parse_loop ms types tokens)
        → IsMatcher type m'
        → (hit : Bool) → IfHit hit (Described m.paterns m.necessary tokens)
        → Yields (Recognised (type ∷ types) tokens) (elim hit [
          | true ↦ ok (type, m' ∷ ms)
          | false ↦ do (found, ms') ← parse_loop ms types tokens; ok (found, m' ∷ ms')
        ])
    answered m' rest is' true (left, words) = (
      (is', are),
      is.means tokens (
        left,
        Sentence-Alike m.paterns is.patterns is.necs tokens left is.alike
            (subst (λ z. Sentence m.paterns z tokens left) is.same words),
      ),
    )
    answered m' rest is' false h =
        Yields-bind (Recognised types tokens) (Recognised (type ∷ types) tokens)
          (parse_loop ms types tokens) _ rest (λ r (are', found). ((is', are'), found))

-- The state of ALL_PATTERNS after any number of statements.
abbrev pub AreAllPatterns : List SqlPatternMatcher → Type 0
AreAllPatterns = AreMatchers all_patterns_node_type

-- ParseSql returns for any tokens, or runs into undefined behaviour; it never throws. Where it returns, the
-- statement has the form of the kind that it answers with, up to a rest that
-- it does not look at, and the patterns stay those of the grammar.
pub parse_sql-IsStatement :
    (all_patterns : List SqlPatternMatcher) (tokens : List Token)
    → AreAllPatterns all_patterns
    → Yields
        (λ (r : NodeType × List SqlPatternMatcher). AreAllPatterns r.1 × IsStatement r.0 tokens)
        (parse_sql all_patterns tokens)
unfolding parse_sql
parse_sql-IsStatement all_patterns tokens are =
    Yields-map (Recognised all_patterns_node_type tokens) _
      (parse_loop all_patterns all_patterns_node_type tokens) (λ r h. h)
      (parse_loop_lem all_patterns all_patterns_node_type tokens are)

fresh :
    (type : NodeType) (ps : List TokenPattern) (necs : List Bool)
    → OptionalsTake ps necs
    → ((tokens : List Token) → Described ps necs tokens → IsStatement type tokens)
    → IsMatcher type (record { paterns = ps; necessary = necs })
fresh type ps necs takes means = record {
  patterns = ps;
  necs = necs;
  alike = refl;
  same = refl;
  takes = takes;
  means = means;
}

abbrev matcher_of : List TokenPattern → List Bool → SqlPatternMatcher
matcher_of ps necs = record { paterns = ps; necessary = necs }

abbrev pub all_patterns_at_start : List SqlPatternMatcher
all_patterns_at_start =
    matcher_of create_database_sql_pattern create_database_sql_pattern_nec
    ∷ matcher_of create_table_sql_pattern create_table_sql_pattern_nec
    ∷ matcher_of insert_into_sql_pattern insert_into_sql_pattern_nec
    ∷ matcher_of select_from_one_table_sql_pattern select_from_one_table_sql_pattern_nec
    ∷ matcher_of delete_from_sql_pattern delete_from_sql_pattern_nec
    ∷ []

-- The patterns with which the program starts.
pub start_patterns_lem :
    (start_patterns ≡ ok all_patterns_at_start) × AreAllPatterns all_patterns_at_start
unfolding start_patterns matcher
start_patterns_lem = (
  refl,
  (
    fresh create_database_node create_database_sql_pattern create_database_sql_pattern_nec tt
        (λ tokens d. d),
    (
      fresh create_table_node create_table_sql_pattern create_table_sql_pattern_nec
          create_table_takes (λ tokens d. d),
      (
        fresh insert_into_table_node insert_into_sql_pattern insert_into_sql_pattern_nec
            insert_into_takes (λ tokens d. d),
        (
          fresh select_from_one_table_node select_from_one_table_sql_pattern
              select_from_one_table_sql_pattern_nec select_from_one_table_takes (λ tokens d. d),
          (
            fresh delete_from_table_node delete_from_sql_pattern delete_from_sql_pattern_nec
                delete_from_takes (λ tokens d. d),
            tt,
          ),
        ),
      ),
    ),
  ),
)
