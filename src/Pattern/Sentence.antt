-- ===== src/Pattern/Sentence.antt =====
-- SqlPatternMatcher::Match in sql_pattern.h: a statement that it accepts is built as the patterns say.
use std.Path.{subst}
use tiny_dbms.Base.{
  ℕ, zero, suc, ◌+◌, ◌-◌, ◌<◌, ◌≡◌, refl, ap, ◌∙◌, sym, Bool, true, false, List, [], ◌∷◌, ◌++◌, map,
  append_assoc, arith, length, length-append, length-drop, drop, All, ok, ◌>>=◌,
}
use tiny_dbms.Lexer.{Token}
use tiny_dbms.Pattern.{
  TokenPattern, pattern_of, Patterns, nil, cons, match_tokens, get_match_length, match_many,
  match_loop, match_sql, SqlPatternMatcher,
}
use tiny_dbms.Pattern.Spec.{Matches, AllMatch, concat, Sentence}
use tiny_dbms.Pattern.Tokens.{drop-append, Yields, Yields-bind, Yields-map, IfHit}
use tiny_dbms.Pattern.Match.{forget, forget_all, Matched, match_lem}

-- What a pattern describes does not depend on what it has cached.
mutual
  Matches-forget : (p : TokenPattern) (seg : List Token) → Matches p seg → Matches (forget p) seg
  Matches-forget (pattern_of n template true next cache) seg m = m
  Matches-forget (pattern_of n template false next cache) seg (front, back, same, fit, all) =
      (front, back, same, fit, AllMatch-forget next back all)

  AllMatch-forget :
      (ps : Patterns) (seg : List Token) → AllMatch ps seg → AllMatch (forget_all ps) seg
  AllMatch-forget nil seg m = m
  AllMatch-forget (cons p ps) seg (front, back, same, m, all) =
      (front, back, same, Matches-forget p front m, AllMatch-forget ps back all)

mutual
  forget-Matches : (p : TokenPattern) (seg : List Token) → Matches (forget p) seg → Matches p seg
  forget-Matches (pattern_of n template true next cache) seg m = m
  forget-Matches (pattern_of n template false next cache) seg (front, back, same, fit, all) =
      (front, back, same, fit, forget-AllMatch next back all)

  forget-AllMatch :
      (ps : Patterns) (seg : List Token) → AllMatch (forget_all ps) seg → AllMatch ps seg
  forget-AllMatch nil seg m = m
  forget-AllMatch (cons p ps) seg (front, back, same, m, all) =
      (front, back, same, forget-Matches p front m, forget-AllMatch ps back all)

Matches-alike :
    (p q : TokenPattern) (seg : List Token) → forget p ≡ forget q → Matches p seg → Matches q seg
Matches-alike p q seg e m =
    forget-Matches q seg (subst (λ r. Matches r seg) e (Matches-forget p seg m))

All-alike :
    (p q : TokenPattern) (segs : List (List Token))
    → forget p ≡ forget q
    → All (Matches p) segs
    → All (Matches q) segs
All-alike p q [] e all = tt
All-alike p q (seg ∷ segs) e (m, all) = (Matches-alike p q seg e m, All-alike p q segs e all)

-- A pattern that an optional place can hold without the loop going on for ever.
abbrev pub TakesToken : TokenPattern → Type 0
TakesToken p = (seg : List Token) → Matches p seg → 0 < length seg

abbrev Many : TokenPattern → List Token → ℕ → ℕ × TokenPattern → Type 0
Many p tokens at (at', p') =
    (forget p' ≡ forget p)
    × (fronts : List (List Token)) × (drop at tokens ≡ concat fronts ++ drop at' tokens)
    × All (Matches p) fronts

-- The measure of the loop: the tokens that are left.
less_left :
    (tokens seg back : List Token) (at fuel : ℕ)
    → drop at tokens ≡ seg ++ back
    → 0 < length seg
    → length tokens - at < suc fuel
    → length tokens - (at + length seg) < fuel
less_left tokens seg back at fuel same takes enough =
    omega (arith, ap length same, length-append seg back, length-drop at tokens)

many_lem :
    (fuel : ℕ) (p : TokenPattern) (tokens : List Token) (at : ℕ)
    → TakesToken p
    → length tokens - at < fuel
    → Yields (Many p tokens at) (match_many fuel p tokens at)
unfolding match_many
many_lem zero p tokens at takes enough = absurd (omega (arith, enough))
many_lem (suc fuel) p tokens at takes enough =
    Yields-bind (Matched p tokens at) (Many p tokens at) (match_tokens p tokens at) _
      (match_lem p tokens at)
      (λ r.
        round r.1
          (λ at' shape.
            many_lem fuel r.1 tokens at' (λ seg m. takes seg (Matches-alike r.1 p seg shape m)))
          r.0)
  where
    further :
        (p' : TokenPattern) (seg back : List Token) (r : ℕ × TokenPattern)
        → forget p' ≡ forget p
        → drop at tokens ≡ seg ++ back
        → Matches p seg
        → Many p' tokens (at + length seg) r
        → Many p tokens at r
    further p' seg back (at', p'') shape same m (shape', fronts, same', all) = (
      shape' ∙ shape,
      seg ∷ fronts,
      same
          ∙ ap (◌++◌ seg) (sym (drop-append tokens seg back at same) ∙ same')
          ∙ sym (append_assoc seg (concat fronts) (drop at' tokens)),
      (m, All-alike p' p fronts shape all),
    )

    round :
        (p' : TokenPattern)
        → ((at' : ℕ)
            → forget p' ≡ forget p
            → length tokens - at' < fuel
            → Yields (Many p' tokens at') (match_many fuel p' tokens at'))
        → (hit : Bool) → Matched p tokens at (hit, p')
        → Yields (Many p tokens at) (elim hit [
          | false ↦ ok (at, p')
          | true ↦ do k ← get_match_length p'; match_many fuel p' tokens (at + k)
        ])
    round p' again false (shape, h) = (shape, [], refl, tt)
    round p' again true (shape, (seg, back, same, m, len)) = rw len (
        Yields-map (Many p' tokens (at + length seg)) (Many p tokens at)
          (match_many fuel p' tokens (at + length seg)) (λ r. further p' seg back r shape same m)
          (again (at + length seg) shape
            (less_left tokens seg back at fuel same (takes seg m) enough)))

-- Every optional pattern takes a token.
abbrev pub OptionalsTake : List TokenPattern → List Bool → Type 0
OptionalsTake patterns [] = Unit
OptionalsTake [] (nec ∷ necs) = Unit
OptionalsTake (p ∷ ps) (true ∷ necs) = OptionalsTake ps necs
OptionalsTake (p ∷ ps) (false ∷ necs) = TakesToken p × OptionalsTake ps necs

abbrev Accepted : List TokenPattern → List Bool → List Token → ℕ → Bool × List TokenPattern → Type 0
Accepted ps necs tokens at (hit, ps') =
    (map forget ps' ≡ map forget ps)
    × IfHit hit ((rest : List Token) × Sentence ps necs (drop at tokens) rest)

match_loop_lem :
    (fuel : ℕ) (ps : List TokenPattern) (necs : List Bool) (tokens : List Token) (at : ℕ)
    → OptionalsTake ps necs
    → length tokens < fuel
    → Yields (Accepted ps necs tokens at) (match_loop fuel ps necs tokens at)
unfolding match_loop
match_loop_lem fuel ps [] tokens at takes enough = (refl, (drop at tokens, refl))
match_loop_lem fuel [] (nec ∷ necs) tokens at takes enough = tt
match_loop_lem fuel (p ∷ ps) (true ∷ necs) tokens at takes enough =
    Yields-bind (Matched p tokens at) (Accepted (p ∷ ps) (true ∷ necs) tokens at)
      (match_tokens p tokens at) _ (match_lem p tokens at)
      (λ r. needed r.1 (λ k. match_loop_lem fuel ps necs tokens (at + k) takes enough) r.0)
  where
    needed :
        (p' : TokenPattern)
        → ((k : ℕ)
            → Yields (Accepted ps necs tokens (at + k)) (match_loop fuel ps necs tokens (at + k)))
        → (hit : Bool) → Matched p tokens at (hit, p')
        → Yields (Accepted (p ∷ ps) (true ∷ necs) tokens at) (elim hit [
          | false ↦ ok (false, p' ∷ ps)
          | true ↦ do
            k ← get_match_length p'
            (all, ps') ← match_loop fuel ps necs tokens (at + k)
            ok (all, p' ∷ ps')
        ])
    needed p' again false (shape, h) = (ap (λ z. z ∷ map forget ps) shape, tt)
    needed p' again true (shape, (seg, back, same, m, len)) = rw len (
        Yields-bind (Accepted ps necs tokens (at + length seg))
          (Accepted (p ∷ ps) (true ∷ necs) tokens at)
          (match_loop fuel ps necs tokens (at + length seg)) _ (again (length seg))
          (λ r (shape', h). (λ i. shape i ∷ shape' i, behind seg back same m r.0 h)))
      where
        behind :
            (seg back : List Token)
            → drop at tokens ≡ seg ++ back
            → Matches p seg
            → (hit : Bool)
            → IfHit hit
                ((rest : List Token) × Sentence ps necs (drop (at + length seg) tokens) rest)
            → IfHit hit
                ((rest : List Token) × Sentence (p ∷ ps) (true ∷ necs) (drop at tokens) rest)
        behind seg back same m false h = tt
        behind seg back same m true (rest, words) = (
          rest,
          (
            seg,
            back,
            same,
            m,
            subst (λ z. Sentence ps necs z rest) (drop-append tokens seg back at same) words,
          ),
        )
match_loop_lem fuel (p ∷ ps) (false ∷ necs) tokens at (one, takes) enough =
    Yields-bind (Many p tokens at) (Accepted (p ∷ ps) (false ∷ necs) tokens at)
      (match_many fuel p tokens at) _ (many_lem fuel p tokens at one (omega (arith, enough)))
      (λ r (shape, fronts, same, all).
        Yields-bind (Accepted ps necs tokens r.0) (Accepted (p ∷ ps) (false ∷ necs) tokens at)
          (match_loop fuel ps necs tokens r.0) _
          (match_loop_lem fuel ps necs tokens r.0 takes enough)
          (λ r' (shape', h). (λ i. shape i ∷ shape' i, many_then fronts r.0 same all r'.0 h)))
  where
    many_then :
        (fronts : List (List Token)) (at' : ℕ)
        → drop at tokens ≡ concat fronts ++ drop at' tokens
        → All (Matches p) fronts
        → (hit : Bool) → IfHit hit ((rest : List Token) × Sentence ps necs (drop at' tokens) rest)
        → IfHit hit ((rest : List Token) × Sentence (p ∷ ps) (false ∷ necs) (drop at tokens) rest)
    many_then fronts at' same all false h = tt
    many_then fronts at' same all true (rest, words) =
        (rest, (fronts, drop at' tokens, same, all, words))

-- A matcher whose optional patterns take a token always ends its loops. What it accepts is a sentence:
-- its patterns one after the other, the optional ones any number of times, and a rest.
pub match_sql-Sentence :
    (m : SqlPatternMatcher) (tokens : List Token)
    → OptionalsTake m.paterns m.necessary
    → Yields
        (λ (r : Bool × SqlPatternMatcher).
          (r.1.necessary ≡ m.necessary)
          × (map forget r.1.paterns ≡ map forget m.paterns)
          × IfHit r.0 ((rest : List Token) × Sentence m.paterns m.necessary tokens rest))
        (match_sql m tokens)
unfolding match_sql
match_sql-Sentence m tokens takes =
    Yields-bind (Accepted m.paterns m.necessary tokens 0) _
      (match_loop (suc (length tokens)) m.paterns m.necessary tokens 0) _
      (match_loop_lem (suc (length tokens)) m.paterns m.necessary tokens 0 takes (omega arith))
      (λ r (shape, h). (refl, shape, h))

-- Patterns that differ in what they have cached only.
abbrev pub Alike : List TokenPattern → List TokenPattern → Type 0
Alike ps qs = map forget ps ≡ map forget qs

pub Sentence-Alike :
    (ps qs : List TokenPattern) (necs : List Bool) (tokens rest : List Token)
    → Alike ps qs
    → Sentence ps necs tokens rest
    → Sentence qs necs tokens rest
Sentence-Alike ps qs [] tokens rest e words = words
Sentence-Alike [] qs (nec ∷ necs) tokens rest e words = absurd words
Sentence-Alike (p ∷ ps) [] (nec ∷ necs) tokens rest e words = cc
Sentence-Alike (p ∷ ps) (q ∷ qs) (true ∷ necs) tokens rest e (front, back, same, m, words) = (
  front,
  back,
  same,
  Matches-alike p q front (cc) m,
  Sentence-Alike ps qs necs back rest (cc) words,
)
Sentence-Alike (p ∷ ps) (q ∷ qs) (false ∷ necs) tokens rest e (fronts, back, same, all, words) = (
  fronts,
  back,
  same,
  All-alike p q fronts (cc) all,
  Sentence-Alike ps qs necs back rest (cc) words,
)

pub OptionalsTake-Alike :
    (ps qs : List TokenPattern) (necs : List Bool)
    → Alike ps qs
    → OptionalsTake qs necs
    → OptionalsTake ps necs
OptionalsTake-Alike ps qs [] e takes = tt
OptionalsTake-Alike [] qs (nec ∷ necs) e takes = tt
OptionalsTake-Alike (p ∷ ps) [] (nec ∷ necs) e takes = cc
OptionalsTake-Alike (p ∷ ps) (q ∷ qs) (true ∷ necs) e takes =
    OptionalsTake-Alike ps qs necs (cc) takes
OptionalsTake-Alike (p ∷ ps) (q ∷ qs) (false ∷ necs) e (one, takes) =
    (λ seg m. one seg (Matches-alike p q seg (cc) m), OptionalsTake-Alike ps qs necs (cc) takes)
