-- ===== src/Select/Texts.antt =====
-- The rows that a join makes hold values of the columns, so that what holds of these holds of those.
use tiny_dbms.Base.{
  ℕ, ◌+◌, ◌<◌, ◌≡◌, refl, sym, inl, inr, Bool, true, false, Bool-cases, List, [], ◌∷◌, ◌++◌, All,
  Option, none, some, arith, ◌==◌,
}
use std.Path.{subst}
use tiny_dbms.StdMap.{find, nat_key}
use tiny_dbms.Value.{Value, ValueType}
use tiny_dbms.Value.Encode.{IsStored, int_stored, float_stored, text_stored}
use tiny_dbms.Value.Compare.{Floats}
use tiny_dbms.Scan.{Tagged}
use tiny_dbms.Scan.Spec.{Matches, numbered, kept}
use tiny_dbms.Join.{Row}
use tiny_dbms.Join.Columns.{RowsAscending, values_at, values_at_below, both}
use tiny_dbms.Join.Inner as Inner
use tiny_dbms.Join.Inner.{across}
use tiny_dbms.Access.Chain.{Chain, ChainAt, all_values}
use tiny_dbms.Memory.Buffer.{Buffer}
use tiny_dbms.Select.Answer.{HasText, int_text, float_text, chars_text}

module _ (P : Value → Type 0) where
  abbrev pub AllTagged : List Tagged → Type 0
  AllTagged col = All (λ (x : Tagged). P x.1) col

  abbrev AllOf : Option (List Value) → Type 0
  AllOf none = Unit
  AllOf (some vs) = All P vs

  abbrev OneOf : Option Value → Type 0
  OneOf none = Unit
  OneOf (some v) = P v

  find_one : (j : ℕ) (col : List Tagged) → AllTagged col → OneOf (find j col)
  unfolding find
  find_one j [] h = tt
  find_one j ((t, v) ∷ col) (p, h) = elim (Bool-cases (t == j)) [
    | inl e ↦ rw (e, OneOf) p
    | inr e ↦ rw (e, OneOf) (find_one j col h)
  ]

  both_of : (x : Option (List Value)) (y : Option Value) → AllOf x → OneOf y → AllOf (both x y)
  both_of none y h p = tt
  both_of (some vs) none h p = tt
  both_of (some vs) (some w) h p = behind vs h
    where
      behind : (us : List Value) → All P us → All P (us ++ (w ∷ []))
      behind [] h = (p, tt)
      behind (u ∷ us) (q, h) = (q, behind us h)

  across_of :
      (start : Option (List Value)) (j : ℕ) (cols : List (List Tagged))
      → AllOf start
      → All AllTagged cols
      → AllOf (across start j cols)
  unfolding across
  across_of start j [] h all = h
  across_of start j (col ∷ cols) h (one, all) =
      across_of (both start (find j col)) j cols (both_of start (find j col) h (find_one j col one))
        all

  at_self : (r : Row) (rows : List Row) → values_at r.tag (r ∷ rows) ≡ some r.values
  unfolding values_at
  at_self r rows = let self : ((r.tag == r.tag) ≡ true) = ground arith in rw self refl

  at_other :
      (r : Row) (rows : List Row) (j : ℕ)
      → (r.tag == j) ≡ false
      → values_at j (r ∷ rows) ≡ values_at j rows
  unfolding values_at
  at_other r rows j e = rw e refl

  rows_of_values :
      (lo : ℕ) (rows : List Row)
      → RowsAscending lo rows
      → ((j : ℕ) → AllOf (values_at j rows))
      → All (λ (r : Row). All P r.values) rows
  rows_of_values lo [] a h = tt
  rows_of_values lo (r ∷ rows) (le, a) h = (
    subst AllOf (at_self r rows) (h r.tag),
    rows_of_values (r.tag + 1) rows a (λ j. elim (Bool-cases (r.tag == j)) [
      | inl e ↦
          let same : (r.tag ≡ j) = ground arith in
          let below : (j < r.tag + 1) = omega (arith, same) in
          subst AllOf (sym (values_at_below (r.tag + 1) j rows a below)) tt
      | inr e ↦ subst AllOf (at_other r rows j e) (h j)
    ]),
  )

  pub rows_hold :
      (rows : List Row) (cols : List (List Tagged))
      → RowsAscending 0 rows
      → ((j : ℕ) → values_at j rows ≡ Inner.all_values j cols)
      → All AllTagged cols
      → All (λ (r : Row). All P r.values) rows
  rows_hold rows cols a same all =
      rows_of_values 0 rows a (λ j. subst AllOf (sym (same j)) (across_of (some []) j cols tt all))

  pub numbered_hold : (tag : ℕ) (vs : List Value) → All P vs → AllTagged (numbered tag vs)
  numbered_hold tag [] h = tt
  numbered_hold tag (v ∷ vs) (p, h) = (p, numbered_hold (tag + 1) vs h)

  pub kept_hold :
      (q : Value → Bool) (tag : ℕ) (vs : List Value) → All P vs → AllTagged (kept q tag vs)
  kept_hold q tag [] h = tt
  kept_hold q tag (v ∷ vs) (p, h) = elim (Bool-cases (q v)) [
    | inl e ↦ rw e (p, kept_hold q (tag + 1) vs h)
    | inr e ↦ rw e (kept_hold q (tag + 1) vs h)
  ]

module _ (fl : Floats) where
  stored_text : (t : ValueType) (v : Value) → IsStored t v → HasText fl v
  stored_text _ _ (int_stored n h) = (_, int_text n)
  stored_text _ _ (float_stored n h) = (_, float_text n)
  stored_text _ _ (text_stored text h) = (text, chars_text text (omega (arith, h)))

  matched_texts :
      (t : ValueType) (vs : List Value) (rs : List (List ℕ)) → Matches t vs rs → All (HasText fl) vs
  matched_texts t [] rs m = tt
  matched_texts t (v ∷ vs) [] m = absurd m
  matched_texts t (v ∷ vs) (r ∷ rs) ((s, e), m) = (stored_text t v s, matched_texts t vs rs m)

  All-append :
      (vs ws : List Value) → All (HasText fl) vs → All (HasText fl) ws → All (HasText fl) (vs ++ ws)
  All-append [] ws h k = k
  All-append (v ∷ vs) ws (p, h) k = (p, All-append vs ws h k)

  -- Every value of a chain of blocks has a text.
  pub chain_texts :
      (file : Buffer) (t : ValueType) (cs : Chain)
      → ChainAt file t cs
      → All (HasText fl) (all_values cs)
  chain_texts file t [] stands = tt
  chain_texts file t ((a, vs) ∷ cs) ((rs, stored, m), (linked, others)) =
      All-append vs (all_values cs) (matched_texts t vs rs m) (chain_texts file t cs others)
