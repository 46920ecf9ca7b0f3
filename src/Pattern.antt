-- ===== src/Pattern.antt =====
-- include/sql/parser/sql_pattern.h: the patterns of the supported statements, and the matchers.

pub mod Grammar
pub mod Spec
pub mod Tokens
pub mod Match
pub mod Sentence
pub mod Accept
use tiny_dbms.Base.{
  ℕ, zero, suc, ◌+◌, Bool, true, false, ◌&&◌, ◌||◌, not, List, [], ◌∷◌, Option, none, some, ◌==◌,
  ◌=str=◌, leb, if◌then◌else◌, codes, length, get_elem?, Result, ok, raise, fault, ◌>>=◌,
  fault_pattern, out_of_fuel,
}
use tiny_dbms.Lexer.{
  TokenType, keyword_t, identifier_t, operator_t, number_t, string_t, unknown_t, error_t, Token,
}

-- `match_length` is a cache that only a range check sets; it is `none` as long as it is indeterminate.
mutual
  pub data TokenPattern : Type 0 where
    pattern_of : ℕ → List Token → Bool → Patterns → Option ℕ → TokenPattern

  pub data Patterns : Type 0 where
    nil : Patterns
    cons : TokenPattern → Patterns → Patterns

-- The enumerators by their numbers, as `==` compares them.
abbrev pub type_number : TokenType → ℕ
type_number keyword_t = 0
type_number identifier_t = 1
type_number operator_t = 2
type_number number_t = 3
type_number string_t = 4
type_number unknown_t = 5
type_number error_t = 6

abbrev pub is_type : TokenType → TokenType → Bool
is_type a b = type_number a == type_number b

abbrev pub is_value : Token → Bool
is_value x = is_type x.type number_t || is_type x.type string_t

-- The switch of CertainCheck, by the type of the token in the template.
abbrev pub fits_as : TokenType → Token → Token → Bool
fits_as keyword_t t x = is_type x.type keyword_t && (x.value =str= t.value)
fits_as identifier_t t x = is_type x.type identifier_t
fits_as operator_t t x = is_type x.type operator_t && (x.value =str= t.value)
fits_as number_t t x = is_value x
fits_as string_t t x = is_value x
fits_as unknown_t t x = false
fits_as error_t t x = false

abbrev pub fits : Token → Token → Bool
fits t x = fits_as t.type t x

-- CertainCheck: `n` tokens of the template are left, `k` is begin_check_offset + template_check_offset.
unfoldable pub certain_check : ℕ → List Token → List Token → ℕ → Result Bool
certain_check zero template input k = ok true
certain_check (suc n) [] input k = if leb (length input) k then ok false else fault
certain_check (suc n) (t ∷ template) input k =
    let rest = certain_check n template input (suc k) in
    elim (get_elem? input k) [ none ↦ ok false | some x ↦ if fits t x then rest else ok false ]

-- The switch of RangeCheck. A keyword needs the type or the value here, and not both.
abbrev pub one_fits_as : TokenType → Token → Token → Bool
one_fits_as keyword_t t x = is_type x.type keyword_t || (x.value =str= t.value)
one_fits_as identifier_t t x = is_type x.type identifier_t
one_fits_as operator_t t x = is_type x.type operator_t && (x.value =str= t.value)
one_fits_as number_t t x = is_value x
one_fits_as string_t t x = is_value x
one_fits_as unknown_t t x = false
one_fits_as error_t t x = false

abbrev pub one_fits : Token → Token → Bool
one_fits t x = one_fits_as t.type t x

abbrev pub has_case : TokenType → Bool
has_case unknown_t = false
has_case error_t = false
has_case _ = true

-- The loop over the template in RangeCheck: it returns at a token that fits (`some true`) and at a
-- template without a case (`some false`), or goes on to the next patterns (`none`).
unfoldable pub range_loop : List Token → List Token → ℕ → Result (Option Bool)
range_loop [] input begin = ok none
range_loop (t ∷ template) input begin =
    let rest = range_loop template input begin in
    if has_case t.type
    then (elim (get_elem? input begin) [
      | none ↦ fault
      | some x ↦ if one_fits t x then ok (some true) else rest
    ])
    else ok (some false)

unfoldable mutual
  pub get_match_length : TokenPattern → Result ℕ
  get_match_length (pattern_of n template true next cache) = elim cache [
    | none ↦ fault
    | some k ↦ ok k
  ]
  get_match_length (pattern_of n template false next cache) = do k ← total_length next; ok (n + k)

  pub total_length : Patterns → Result ℕ
  total_length nil = ok 0
  total_length (cons p ps) = do k ← get_match_length p; rest ← total_length ps; ok (k + rest)

-- Match, with RangeCheck for a pattern of one token: whether it matches, and the pattern with what it
-- then has cached. `any_check` is the loop over copies of the next patterns at the end of RangeCheck;
-- it gives the length of the one that matches. The copies of the source drop what is cached, which is
-- not read here before a match has set it again. `all_check` is the loop over the next patterns in Match.
unfoldable mutual
  pub match_tokens : TokenPattern → List Token → ℕ → Result (Bool × TokenPattern)
  match_tokens (pattern_of n template true next cache) input begin = do
    found ← range_loop template input begin
    elim found [
      | none ↦ do
        other ← any_check next input begin
        elim other [
          | some k ↦ ok (true, pattern_of n template true next (some k))
          | none ↦ ok (false, pattern_of n template true next (some 0))
        ]
      | some hit ↦
          if hit
          then ok (true, pattern_of n template true next (some 1))
          else ok (false, pattern_of n template true next cache)
    ]
  match_tokens (pattern_of n template false next cache) input begin = do
    hit ← certain_check n template input begin
    elim hit [
      | false ↦ ok (false, pattern_of n template false next cache)
      | true ↦ do
        (all, next') ← all_check next input (begin + n)
        ok (all, pattern_of n template false next' cache)
    ]

  pub any_check : Patterns → List Token → ℕ → Result (Option ℕ)
  any_check nil input begin = ok none
  any_check (cons p ps) input begin = do
    (hit, p') ← match_tokens p input begin
    elim hit [ true ↦ do k ← get_match_length p'; ok (some k) | false ↦ any_check ps input begin ]

  pub all_check : Patterns → List Token → ℕ → Result (Bool × Patterns)
  all_check nil input at = ok (true, nil)
  all_check (cons p ps) input at = do
    (hit, p') ← match_tokens p input at
    elim hit [
      | false ↦ ok (false, cons p' ps)
      | true ↦ do
        k ← get_match_length p'
        (all, ps') ← all_check ps input (at + k)
        ok (all, cons p' ps')
    ]

-- The members `paterns` and `necessary`, which have one length: the constructor throws otherwise.
pub record SqlPatternMatcher : Type 0 where
  pub paterns : List TokenPattern
  pub necessary : List Bool

unfoldable pub matcher : List TokenPattern → List Bool → Result SqlPatternMatcher
matcher patterns necessary =
    if length patterns == length necessary
    then ok (record { paterns = patterns; necessary = necessary })
    else raise fault_pattern

-- `while (paterns[check_pattern].Match(tokens, check_offset))`, on fuel: the offset behind the last
-- match, and the pattern with its cache.
unfoldable pub match_many : ℕ → TokenPattern → List Token → ℕ → Result (ℕ × TokenPattern)
match_many zero p tokens at = raise out_of_fuel
match_many (suc fuel) p tokens at = do
  (hit, p') ← match_tokens p tokens at
  elim hit [
    | false ↦ ok (at, p')
    | true ↦ do k ← get_match_length p'; match_many fuel p' tokens (at + k)
  ]

-- SqlPatternMatcher::Match, from one pattern on; it walks through both vectors with one index.
unfoldable pub match_loop :
    ℕ → List TokenPattern → List Bool → List Token → ℕ → Result (Bool × List TokenPattern)
match_loop fuel patterns [] tokens at = ok (true, patterns)
match_loop fuel [] (nec ∷ necs) tokens at = fault
match_loop fuel (p ∷ ps) (true ∷ necs) tokens at = do
  (hit, p') ← match_tokens p tokens at
  elim hit [
    | false ↦ ok (false, p' ∷ ps)
    | true ↦ do
      k ← get_match_length p'
      (all, ps') ← match_loop fuel ps necs tokens (at + k)
      ok (all, p' ∷ ps')
  ]
match_loop fuel (p ∷ ps) (false ∷ necs) tokens at = do
  (at', p') ← match_many fuel p tokens at
  (all, ps') ← match_loop fuel ps necs tokens at'
  ok (all, p' ∷ ps')

-- Each round of the inner loop takes a token at least, for the patterns of this file.
unfoldable pub match_sql : SqlPatternMatcher → List Token → Result (Bool × SqlPatternMatcher)
match_sql m tokens = do
  (all, patterns) ← match_loop (suc (length tokens)) m.paterns m.necessary tokens 0
  ok (all, record m { paterns = patterns })
