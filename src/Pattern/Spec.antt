-- ===== src/Pattern/Spec.antt =====
-- What the patterns of sql_pattern.h mean: which lists of tokens a pattern describes.
use tiny_dbms.Base.{◌≡◌, ◌⊎◌, true, false, Bool, List, [], ◌∷◌, ◌++◌, take, All}
use tiny_dbms.Lexer.{Token}
use tiny_dbms.Pattern.{TokenPattern, pattern_of, Patterns, nil, cons, fits, one_fits}

-- Token for token.
abbrev pub Fits : List Token → List Token → Type 0
Fits [] seg = seg ≡ []
Fits (t ∷ ts) [] = ⊥
Fits (t ∷ ts) (x ∷ seg) = (fits t x ≡ true) × Fits ts seg

abbrev pub OneFits : List Token → Token → Type 0
OneFits [] x = ⊥
OneFits (t ∷ ts) x = (one_fits t x ≡ true) ⊎ OneFits ts x

-- A range is one token of the template or one of the next patterns; else the tokens of the template
-- and then all of the next patterns.
abbrev mutual
  pub Matches : TokenPattern → List Token → Type 0
  Matches (pattern_of n template true next cache) seg =
      ((x : Token) × (seg ≡ x ∷ []) × OneFits template x) ⊎ AnyMatches next seg
  Matches (pattern_of n template false next cache) seg =
      (front : List Token) × (back : List Token) × (seg ≡ front ++ back)
      × Fits (take n template) front
      × AllMatch next back

  pub AnyMatches : Patterns → List Token → Type 0
  AnyMatches nil seg = ⊥
  AnyMatches (cons p ps) seg = Matches p seg ⊎ AnyMatches ps seg

  pub AllMatch : Patterns → List Token → Type 0
  AllMatch nil seg = seg ≡ []
  AllMatch (cons p ps) seg =
      (front : List Token) × (back : List Token) × (seg ≡ front ++ back)
      × Matches p front
      × AllMatch ps back

abbrev pub concat : List (List Token) → List Token
concat [] = []
concat (s ∷ ss) = s ++ concat ss

-- A statement: its patterns one after the other, an optional one any number of times, and a rest.
abbrev pub Sentence : List TokenPattern → List Bool → List Token → List Token → Type 0
Sentence patterns [] tokens rest = tokens ≡ rest
Sentence [] (nec ∷ necs) tokens rest = ⊥
Sentence (p ∷ ps) (true ∷ necs) tokens rest =
    (front : List Token) × (back : List Token) × (tokens ≡ front ++ back)
    × Matches p front
    × Sentence ps necs back rest
Sentence (p ∷ ps) (false ∷ necs) tokens rest =
    (fronts : List (List Token)) × (back : List Token) × (tokens ≡ concat fronts ++ back)
    × All (Matches p) fronts
    × Sentence ps necs back rest
