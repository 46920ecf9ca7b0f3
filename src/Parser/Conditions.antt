-- ===== src/Parser/Conditions.antt =====
-- The comparisons of a SELECT: the tokens of their patterns.
use tiny_dbms.Base.{
  arith, ◌⊎◌, Bool-cases, str_eq→eq, true, ℕ, ◌≡◌, refl, ap, ◌∙◌, inl, inr, List, [], ◌∷◌, ◌++◌,
  append_assoc, codes, All,
}
use tiny_dbms.Lexer.{Token, keyword_t}
use tiny_dbms.Sql.{Comparator, bigger, less, equal, not_equal}
use tiny_dbms.Pattern.Spec.{OneFits}
use tiny_dbms.Pattern.{one_fits, is_type, nil, cons}
use tiny_dbms.Pattern.Spec.{Matches, AllMatch, concat}
use tiny_dbms.Pattern.Grammar.{
  keyword, sign, any_id, any_value, id, value, comparer, condition, next_condition,
}
use tiny_dbms.Parser.Shapes.{one_token, two_tokens}
use tiny_dbms.Parser.Steps.{is_type→eq, identifier, IsValue, sign_lem, keyword_lem, identifier_lem}

-- A column, a comparator and a value.
pub record Compared : Type 0 where
  pub name : List ℕ
  pub comparator : Comparator
  pub compared : Token

abbrev pub comparer_tokens : Comparator → List Token → List Token
comparer_tokens bigger rest = sign (codes ">") ∷ rest
comparer_tokens less rest = sign (codes "<") ∷ rest
comparer_tokens equal rest = sign (codes "=") ∷ rest
comparer_tokens not_equal rest = sign (codes "!") ∷ sign (codes "=") ∷ rest

abbrev pub compared_tokens : Compared → List Token → List Token
compared_tokens c rest = identifier c.name ∷ comparer_tokens c.comparator (c.compared ∷ rest)

abbrev pub where_tokens : List Compared → List Token → List Token
where_tokens [] rest = rest
where_tokens (c ∷ cs) rest = keyword (codes "WHERE") ∷ compared_tokens c (where_tokens cs rest)

-- AND or OR, for which the parser takes any keyword and any token of that text, and a comparison.
pub record NextCompared : Type 0 where
  pub operator_token : Token
  pub comparison : Compared

abbrev pub next_tokens : List NextCompared → List Token → List Token
next_tokens [] rest = rest
next_tokens (c ∷ cs) rest = c.operator_token ∷ compared_tokens c.comparison (next_tokens cs rest)

abbrev pub HasValue : Compared → Type 0
HasValue c = IsValue c.compared

-- What the parser takes for AND or OR: any keyword, or a token of that text.
abbrev pub IsJoined : NextCompared → Type 0
IsJoined n =
    n.operator_token.type ≡ keyword_t
    ⊎ n.operator_token.value ≡ codes "AND"
    ⊎ n.operator_token.value ≡ codes "OR"

abbrev pub NextHasValue : NextCompared → Type 0
NextHasValue n = HasValue n.comparison

comparer_lem :
    (seg back : List Token)
    → Matches comparer seg
    → (c : Comparator) × (seg ++ back ≡ comparer_tokens c back)
comparer_lem seg back (inl (x, e, inl h)) =
    (bigger, λ i. (e ∙ ap (λ z. z ∷ []) (sign_lem (codes ">") x h)) i ++ back)
comparer_lem seg back (inl (x, e, inr (inl h))) =
    (less, λ i. (e ∙ ap (λ z. z ∷ []) (sign_lem (codes "<") x h)) i ++ back)
comparer_lem seg back (inl (x, e, inr (inr (inl h)))) =
    (equal, λ i. (e ∙ ap (λ z. z ∷ []) (sign_lem (codes "=") x h)) i ++ back)
comparer_lem seg back (inl (x, e, inr (inr (inr h)))) = absurd h
comparer_lem seg back (inr (inl m)) =
    let (x, y, e, h, h') = two_tokens (sign (codes "!")) (sign (codes "=")) seg m in
    (
      not_equal,
      ap (λ z. z ++ back) e
          ∙ (λ i. sign_lem (codes "!") x h i ∷ sign_lem (codes "=") y h' i ∷ back),
    )
comparer_lem seg back (inr (inr h)) = absurd h

-- A column, a comparator and a value, which stand behind the first token of a condition.
compared_lem :
    (seg back : List Token)
    → AllMatch (cons id (cons comparer (cons value nil))) seg
    → (c : Compared) × (seg ++ back ≡ compared_tokens c back) × HasValue c
compared_lem seg back (s1, b1, e1, m1, (s2, b2, e2, m2, (s3, b3, e3, m3, done))) =
    let (x, ex, hx) = one_token any_id s1 m1 in
    let (v, ev, hv) = one_token any_value s3 m3 in
    let (c, ec) = comparer_lem s2 (v ∷ back) m2 in
    let last : (b2 ++ back ≡ v ∷ back) = ap (λ z. z ++ back) e3 ∙ (λ i. (ev i ++ done i) ++ back) in
    let behind : (b1 ++ back ≡ comparer_tokens c (v ∷ back)) =
      ap (λ z. z ++ back) e2 ∙ append_assoc s2 b2 back ∙ ap (◌++◌ s2) last ∙ ec in
    (
      record { name = x.value; comparator = c; compared = v },
      ap (λ z. z ++ back) e1
          ∙ (λ i. (ex i ++ b1) ++ back)
          ∙ (λ i. identifier_lem x hx i ∷ behind i),
      hv,
    )

pub where_lem :
    (fronts : List (List Token)) (back : List Token)
    → All (Matches condition) fronts
    → (cs : List Compared) × (concat fronts ++ back ≡ where_tokens cs back) × All HasValue cs
where_lem [] back all = ([], refl, tt)
where_lem (front ∷ fronts) back ((f, s, e, empty, (w, b, e', m, others)), all) =
    let (cs, listed, are) = where_lem fronts back all in
    let (x, ex, hx) = one_token (keyword (codes "WHERE")) w m in
    let first : (front ≡ keyword (codes "WHERE") ∷ b) =
      e
      ∙ (λ i. empty i ++ e' i)
      ∙ (λ i. ex i ++ b)
      ∙ ap (λ z. z ∷ b) (keyword_lem (codes "WHERE") x hx) in
    let (c, ec, is) = compared_lem b (concat fronts ++ back) others in
    (
      c ∷ cs,
      append_assoc front (concat fronts) back
          ∙ ap (λ z. z ++ (concat fronts ++ back)) first
          ∙ ap (◌∷◌ (keyword (codes "WHERE"))) (ec ∙ ap (compared_tokens c) listed),
      (is, are),
    )

word_or_keyword :
    (text : List ℕ) (x : Token)
    → one_fits (keyword text) x ≡ true
    → x.type ≡ keyword_t ⊎ x.value ≡ text
word_or_keyword text x h = elim (Bool-cases (is_type x.type keyword_t)) [
  | inl e ↦ inl (is_type→eq x.type keyword_t e)
  | inr e ↦ inr (str_eq→eq x.value text (ground arith))
]

joins :
    (x : Token)
    → OneFits (keyword (codes "AND") ∷ keyword (codes "OR") ∷ []) x
    → x.type ≡ keyword_t ⊎ x.value ≡ codes "AND" ⊎ x.value ≡ codes "OR"
joins x (inl h) = elim (word_or_keyword (codes "AND") x h) [ inl e ↦ inl e | inr e ↦ inr (inl e) ]
joins x (inr (inl h)) = elim (word_or_keyword (codes "OR") x h) [
  | inl e ↦ inl e
  | inr e ↦ inr (inr e)
]
joins x (inr (inr h)) = absurd h

pub next_lem :
    (fronts : List (List Token)) (back : List Token)
    → All (Matches next_condition) fronts
    → (cs : List NextCompared) × (concat fronts ++ back ≡ next_tokens cs back)
      × All NextHasValue cs
      × All IsJoined cs
next_lem [] back all = ([], refl, tt, tt)
next_lem (front ∷ fronts) back ((f, s, e, empty, (w, b, e', inl (x, ex, fit), others)), all) =
    let (cs, listed, are, joined) = next_lem fronts back all in
    let first : (front ≡ x ∷ b) = e ∙ (λ i. empty i ++ e' i) ∙ (λ i. ex i ++ b) in
    let (c, ec, is) = compared_lem b (concat fronts ++ back) others in
    (
      record { operator_token = x; comparison = c } ∷ cs,
      append_assoc front (concat fronts) back
          ∙ ap (λ z. z ++ (concat fronts ++ back)) first
          ∙ ap (◌∷◌ x) (ec ∙ ap (compared_tokens c) listed),
      (is, are),
      (joins x fit, joined),
    )
next_lem (front ∷ fronts) back ((f, s, e, empty, (w, b, e', inr h, others)), all) = absurd h
