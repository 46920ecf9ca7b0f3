-- ===== src/Parser/SelectConditions.antt =====
-- SELECT: the comparisons that SelectFromOneTableSql takes from a statement.
use tiny_dbms.Base.{
  ℕ, suc, ◌+◌, ◌≡◌, ◌≢◌, refl, ap, ◌∙◌, sym, Bool, true, List, [], ◌∷◌, ◌++◌, map, drop, length,
  append_assoc, append-nil, codes, All, arith, ok, ◌=str=◌,
}
use tiny_dbms.Lexer.{Token}
use tiny_dbms.Sql.{Comparator, bigger, less, equal, not_equal, CompareCondition, switch_comparator}
use tiny_dbms.Pattern.Grammar.{keyword}
use tiny_dbms.Ast.{local_column, compares, new_compare, conditions_loop}
use tiny_dbms.Parser.Steps.{identifier}
use tiny_dbms.Parser.Conditions.{Compared, comparer_tokens, compared_tokens, where_tokens, HasValue}

-- The comparisons that the tree holds. One with two tokens for its comparator ends the loop.
abbrev pub IsSingle : Compared → Type 0
IsSingle c = c.comparator ≢ not_equal

abbrev pub condition_of : Compared → CompareCondition
condition_of c = record {
  col = local_column c.name;
  condition = c.comparator;
  compare_value = c.compared.value;
}

compares_single :
    (c : Compared) (rest : List Token)
    → HasValue c
    → IsSingle c
    → compares (compared_tokens c rest) ≡ ok true
unfolding compares
compares_single c rest h single = by_comparator c.comparator single
  where
    by_comparator :
        (k : Comparator)
        → k ≢ not_equal
        → compares (identifier c.name ∷ comparer_tokens k (c.compared ∷ rest)) ≡ ok true
    by_comparator bigger ne = ap ok h
    by_comparator less ne = ap ok h
    by_comparator equal ne = ap ok h
    by_comparator not_equal ne = absurd (ne refl)

new_compare_single :
    (c : Compared) (rest : List Token)
    → IsSingle c
    → new_compare (compared_tokens c rest) ≡ ok (condition_of c)
unfolding new_compare switch_comparator ◌=str=◌
new_compare_single c rest single = by_comparator c.comparator single
  where
    by_comparator :
        (k : Comparator)
        → k ≢ not_equal
        → new_compare (identifier c.name ∷ comparer_tokens k (c.compared ∷ rest))
          ≡ ok (record {
            col = local_column c.name;
            condition = k;
            compare_value = c.compared.value;
          })
    by_comparator bigger ne = refl
    by_comparator less ne = refl
    by_comparator equal ne = refl
    by_comparator not_equal ne = absurd (ne refl)

drop_single :
    (c : Compared) (rest : List Token) → IsSingle c → drop 3 (compared_tokens c rest) ≡ rest
drop_single c rest single = by_comparator c.comparator single
  where
    by_comparator :
        (k : Comparator)
        → k ≢ not_equal
        → drop 3 (identifier c.name ∷ comparer_tokens k (c.compared ∷ rest)) ≡ rest
    by_comparator bigger ne = refl
    by_comparator less ne = refl
    by_comparator equal ne = refl
    by_comparator not_equal ne = absurd (ne refl)

abbrev pub any_before : Bool → List Compared → Bool
any_before pre [] = pre
any_before pre (c ∷ cs) = true

still_before : (cs : List Compared) → any_before true cs ≡ true
still_before [] = refl
still_before (c ∷ cs) = refl

zero_add : (n : ℕ) → 0 + n ≡ n
zero_add n = omega arith

suc_add : (m n : ℕ) → suc m + n ≡ suc (m + n)
suc_add m n = omega arith

where_step :
    (fuel : ℕ) (ts behind : List Token) (pre : Bool) (before : List CompareCondition)
    (c : CompareCondition)
    → compares ts ≡ ok true
    → new_compare ts ≡ ok c
    → drop 3 ts ≡ behind
    → conditions_loop (suc fuel) (keyword (codes "WHERE") ∷ ts) pre before
      ≡ conditions_loop fuel behind true (before ++ (c ∷ []))
unfolding conditions_loop ◌=str=◌
where_step fuel ts behind pre before c one made left = cc

-- The loop reads these comparisons, and goes on behind them.
pub conditions_lem :
    (cs : List Compared) (fuel : ℕ) (behind : List Token) (pre : Bool)
    (before : List CompareCondition)
    → All HasValue cs
    → All IsSingle cs
    → conditions_loop (length cs + fuel) (where_tokens cs behind) pre before
      ≡ conditions_loop fuel behind (any_before pre cs) (before ++ map condition_of cs)
unfolding conditions_loop ◌=str=◌
conditions_lem [] fuel behind pre before have single =
    λ i. conditions_loop (zero_add fuel i) behind pre (sym (append-nil before) i)
conditions_lem (c ∷ cs) fuel behind pre before (h, have) (one, single) =
    let ts = compared_tokens c (where_tokens cs behind) in
    (λ i. conditions_loop (suc_add (length cs) fuel i) (keyword (codes "WHERE") ∷ ts) pre before)
    ∙ where_step (length cs + fuel) ts (where_tokens cs behind) pre before (condition_of c)
        (compares_single c (where_tokens cs behind) h one)
        (new_compare_single c (where_tokens cs behind) one)
        (drop_single c (where_tokens cs behind) one)
    ∙ conditions_lem cs fuel behind true (before ++ (condition_of c ∷ [])) have single
    ∙ (λ i.
        conditions_loop fuel behind (still_before cs i)
          (append_assoc before (condition_of c ∷ []) (map condition_of cs) i))
