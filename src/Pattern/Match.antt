-- ===== src/Pattern/Match.antt =====
-- Match in sql_pattern.h: what it accepts is what the pattern describes, and GetMatchLength, which
-- reads the cached lengths, then gives the number of tokens.
use tiny_dbms.Base.{
  ℕ, ◌+◌, ◌≡◌, refl, ap, ◌∙◌, sym, inl, inr, Bool, true, false, List, [], ◌∷◌, ◌++◌, append_assoc,
  length, length-append, drop, Option, some, none, Result, ok, raise, fault, ◌>>=◌, by_bool,
  by_option,
}
use tiny_dbms.Lexer.{Token}
use tiny_dbms.Pattern.{
  TokenPattern, pattern_of, Patterns, nil, cons, certain_check, range_loop, match_tokens, any_check,
  all_check, get_match_length, total_length,
}
use tiny_dbms.Pattern.Spec.{Matches, AnyMatches, AllMatch}
use tiny_dbms.Pattern.Tokens.{
  drop-append, Yields, Yields-bind, IfHit, Certain, certain_check_lem, Ranged, range_loop_lem,
}

-- A pattern without what it has cached.
abbrev mutual
  pub forget : TokenPattern → TokenPattern
  forget (pattern_of n template true next cache) = pattern_of n template true next none
  forget (pattern_of n template false next cache) =
      pattern_of n template false (forget_all next) none

  pub forget_all : Patterns → Patterns
  forget_all nil = nil
  forget_all (cons p ps) = cons (forget p) (forget_all ps)

abbrev pub Segment : (List Token → Type 0) → List Token → ℕ → Result ℕ → Type 0
Segment P input at r =
    (seg : List Token) × (back : List Token) × (drop at input ≡ seg ++ back)
    × P seg
    × (r ≡ ok (length seg))

abbrev pub Found : Patterns → List Token → ℕ → Option ℕ → Type 0
Found ps input at none = Unit
Found ps input at (some k) = Segment (AnyMatches ps) input at (ok k)

abbrev pub Matched : TokenPattern → List Token → ℕ → Bool × TokenPattern → Type 0
Matched p input at (hit, p') =
    (forget p' ≡ forget p) × IfHit hit (Segment (Matches p) input at (get_match_length p'))

abbrev pub AllMatched : Patterns → List Token → ℕ → Bool × Patterns → Type 0
AllMatched ps input at (hit, ps') =
    (forget_all ps' ≡ forget_all ps) × IfHit hit (Segment (AllMatch ps) input at (total_length ps'))

-- The tokens of the template, and then those of the next patterns.
joined :
    (n : ℕ) (template : List Token) (next : Patterns) (cache : Option ℕ) (input : List Token)
    (at : ℕ)
    → Certain n template input at true
    → (hit : Bool) (next' : Patterns) → AllMatched next input (at + n) (hit, next')
    → Matched
        (pattern_of n template false next cache)
        input
        at
        (hit, pattern_of n template false next' cache)
unfolding get_match_length
joined n template next cache input at first false next' (shape, behind) =
    (ap (λ z. pattern_of n template false z none) shape, tt)
joined n template next cache input at (front, rest, same, fit, len) true next'
      (shape, (seg, back, same', all, total)) =
    (
      ap (λ z. pattern_of n template false z none) shape,
      (
        front ++ seg,
        back,
        same
            ∙ ap (◌++◌ front) (sym (drop-append input front rest at same) ∙ rw len same')
            ∙ sym (append_assoc front seg back),
        (front, seg, refl, fit, all),
        rw (total, length-append front seg, len) refl,
      ),
    )

ok_injective : {a b : ℕ} → ok a ≡ ok b → a ≡ b
ok_injective e = cc

-- A next pattern, and then the others.
chained :
    (p p' : TokenPattern) (ps : Patterns) (input : List Token) (at k : ℕ)
    → forget p' ≡ forget p
    → Segment (Matches p) input at (ok k)
    → get_match_length p' ≡ ok k
    → (hit : Bool) (ps' : Patterns) → AllMatched ps input (at + k) (hit, ps')
    → AllMatched (cons p ps) input at (hit, cons p' ps')
unfolding total_length
chained p p' ps input at k shape first len false ps' (shape', behind) =
    (λ i. cons (shape i) (shape' i), tt)
chained p p' ps input at k shape (front, rest, same, fit, size) len true ps'
      (shape', (seg, back, same', all, total)) =
    let size' : (k ≡ length front) = ok_injective size in
    (
      λ i. cons (shape i) (shape' i),
      (
        front ++ seg,
        back,
        same
            ∙ ap (◌++◌ front) (sym (drop-append input front rest at same) ∙ rw (sym size') same')
            ∙ sym (append_assoc front seg back),
        (front, seg, refl, fit, all),
        rw (len, total, length-append front seg, size') refl,
      ),
    )

any_next :
    (p p' : TokenPattern) (ps : Patterns) (input : List Token) (at : ℕ)
    → Yields (Found ps input at) (any_check ps input at)
    → (hit : Bool) → Matched p input at (hit, p')
    → Yields (Found (cons p ps) input at) (elim hit [
      | true ↦ do k ← get_match_length p'; ok (some k)
      | false ↦ any_check ps input at
    ])
any_next p p' ps input at others true (shape, (seg, back, same, fit, len)) =
    rw len (seg, back, same, inl fit, refl)
any_next p p' ps input at others false (shape, h) = found_later (any_check ps input at) others
  where
    found_later :
        (m : Result (Option ℕ))
        → Yields (Found ps input at) m
        → Yields (Found (cons p ps) input at) m
    found_later (ok none) y = tt
    found_later (ok (some k)) (seg, back, same, fit, len) = (seg, back, same, inr fit, len)
    found_later (raise e) y = y
    found_later fault y = tt

all_next :
    (p p' : TokenPattern) (ps : Patterns) (input : List Token) (at : ℕ)
    → ((k : ℕ) → Yields (AllMatched ps input (at + k)) (all_check ps input (at + k)))
    → (hit : Bool) → Matched p input at (hit, p')
    → Yields (AllMatched (cons p ps) input at) (elim hit [
      | false ↦ ok (false, cons p' ps)
      | true ↦ do
        k ← get_match_length p'
        (all, ps') ← all_check ps input (at + k)
        ok (all, cons p' ps')
    ])
all_next p p' ps input at others false (shape, h) = (ap (λ z. cons z (forget_all ps)) shape, tt)
all_next p p' ps input at others true (shape, (seg, back, same, fit, len)) = rw len (
    Yields-bind (AllMatched ps input (at + length seg)) (AllMatched (cons p ps) input at)
      (all_check ps input (at + length seg)) _ (others (length seg))
      (λ r. chained p p' ps input at (length seg) shape (seg, back, same, fit, refl) len r.0 r.1))

mutual
  unfolding match_tokens any_check all_check get_match_length total_length

  pub match_lem :
      (p : TokenPattern) (input : List Token) (at : ℕ)
      → Yields (Matched p input at) (match_tokens p input at)
  match_lem (pattern_of n template true next cache) input at =
      Yields-bind (Ranged template input at)
        (Matched (pattern_of n template true next cache) input at) (range_loop template input at) _
        (range_loop_lem template input at)
        (by_option _
          (λ y.
            Yields-bind (Found next input at)
              (Matched (pattern_of n template true next cache) input at) (any_check next input at) _
              (any_lem next input at)
              (by_option _ (λ z. (refl, tt))
                (λ k z.
                  let (seg, back, same, any, len) = z in (refl, (seg, back, same, inr any, len)))))
          (by_bool _
            (λ y.
              let (x, back, same, fit) = y in
              (refl, (x ∷ [], back, same, inl (x, refl, fit), refl)))
            (λ y. (refl, tt))))
  match_lem (pattern_of n template false next cache) input at =
      Yields-bind (Certain n template input at)
        (Matched (pattern_of n template false next cache) input at)
        (certain_check n template input at) _ (certain_check_lem n template input at)
        (by_bool _
          (λ y.
            Yields-bind (AllMatched next input (at + n))
              (Matched (pattern_of n template false next cache) input at)
              (all_check next input (at + n)) _ (all_lem next input (at + n))
              (λ r. joined n template next cache input at y r.0 r.1))
          (λ y. (refl, tt)))

  any_lem :
      (ps : Patterns) (input : List Token) (at : ℕ)
      → Yields (Found ps input at) (any_check ps input at)
  any_lem nil input at = tt
  any_lem (cons p ps) input at =
      Yields-bind (Matched p input at) (Found (cons p ps) input at) (match_tokens p input at) _
        (match_lem p input at) (λ r. any_next p r.1 ps input at (any_lem ps input at) r.0)

  all_lem :
      (ps : Patterns) (input : List Token) (at : ℕ)
      → Yields (AllMatched ps input at) (all_check ps input at)
  all_lem nil input at = (refl, ([], drop at input, refl, refl, refl))
  all_lem (cons p ps) input at =
      Yields-bind (Matched p input at) (AllMatched (cons p ps) input at) (match_tokens p input at) _
        (match_lem p input at)
        (λ r. all_next p r.1 ps input at (λ k. all_lem ps input (at + k)) r.0)
