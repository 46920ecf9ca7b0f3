-- ===== src/Join/Columns.antt =====
-- What `InnerJoinColumns` returns for columns whose tags ascend, as the scans leave them.
use tiny_dbms.Base.{
  ℕ, ◌+◌, ◌≤◌, ◌<◌, ◌≡◌, refl, ◌∙◌, sym, List, [], ◌∷◌, ◌++◌, append_assoc, append-nil, Option,
  none, some, arith, ◌==◌, if◌then◌else◌, Option-cases, inl, inr,
}
use tiny_dbms.StdMap.{find, assign, find-assign, nat_key}
use tiny_dbms.Value.{Value}
use tiny_dbms.Scan.{Tagged}
use tiny_dbms.Join.{Row, value_map, pair_loop, different_col_and_op, row_map}

-- The tags ascend, from `lo` on.
abbrev pub Ascending : ℕ → List Tagged → Type 0
Ascending lo [] = Unit {0}
Ascending lo ((t, v) ∷ col) = (lo ≤ t) × Ascending (t + 1) col

abbrev pub RowsAscending : ℕ → List Row → Type 0
RowsAscending lo [] = Unit {0}
RowsAscending lo (r ∷ rows) = (lo ≤ r.tag) × RowsAscending (r.tag + 1) rows

pub RowsAscending-mono :
    (lo hi : ℕ) (rows : List Row) → lo ≤ hi → RowsAscending hi rows → RowsAscending lo rows
RowsAscending-mono lo hi [] h a = tt
RowsAscending-mono lo hi (r ∷ rows) h (le, a) = (omega arith, a)

pub find_below : (lo j : ℕ) (col : List Tagged) → Ascending lo col → j < lo → find j col ≡ none
unfolding find
find_below lo j [] a h = refl
find_below lo j ((t, v) ∷ col) (le, a) h = ground (arith, find_below (t + 1) j col a)

abbrev pub or_else {ℓ} : {A : Type ℓ} → Option A → Option A → Option A
or_else none y = y
or_else (some x) y = some x

pub find-value_map :
    (lo j : ℕ) (col m : List Tagged)
    → Ascending lo col
    → find j (value_map col m) ≡ or_else (find j col) (find j m)
unfolding value_map find
find-value_map lo j [] m a = refl
find-value_map lo j ((t, v) ∷ col) m (le, a) =
    find-value_map (t + 1) j col (assign t v m) a
    ∙ ground (arith, find-assign t j v m, find_below (t + 1) j col a)

-- The values of the row with a tag.
unfoldable pub values_at : ℕ → List Row → Option (List Value)
values_at j [] = none
values_at j (r ∷ rows) = let rest = values_at j rows in if r.tag == j then some r.values else rest

pub values_at_below :
    (lo j : ℕ) (rows : List Row) → RowsAscending lo rows → j < lo → values_at j rows ≡ none
unfolding values_at
values_at_below lo j [] a h = refl
values_at_below lo j (r ∷ rows) (le, a) h = ground (arith, values_at_below (r.tag + 1) j rows a)

abbrev pub row_values : Option Row → Option (List Value)
row_values none = none
row_values (some r) = some r.values

pub find-row_map :
    (lo j : ℕ) (rows : List Row) (m : List (ℕ × Row))
    → RowsAscending lo rows
    → row_values (find j (row_map rows m)) ≡ or_else (values_at j rows) (row_values (find j m))
unfolding row_map find values_at
find-row_map lo j [] m a = refl
find-row_map lo j (r ∷ rows) m (le, a) =
    find-row_map (r.tag + 1) j rows (assign r.tag r m) a
    ∙ ground (arith, find-assign r.tag j r m, values_at_below (r.tag + 1) j rows a)

-- Each row stands under its tag.
abbrev pub Keyed : List (ℕ × Row) → Type 0
Keyed m = (j : ℕ) (r : Row) → find j m ≡ some r → r.tag ≡ j

pub assign-Keyed : (m : List (ℕ × Row)) (r : Row) → Keyed m → Keyed (assign r.tag r m)
assign-Keyed m r k j s e = ground (arith, find-assign r.tag j r m, k j s)

pub row_map-Keyed : (rows : List Row) (m : List (ℕ × Row)) → Keyed m → Keyed (row_map rows m)
unfolding row_map
row_map-Keyed [] m k = k
row_map-Keyed (r ∷ rows) m k = row_map-Keyed rows (assign r.tag r m) (assign-Keyed m r k)

-- Rows for the tags of the right column that the left one has.
unfoldable pub paired : List (ℕ × Value) → List Tagged → List Row
paired m [] = []
paired m ((t, w) ∷ right) =
    let rest = paired m right in
    elim (find t m) [ none ↦ rest | some v ↦ record { tag = t; values = v ∷ w ∷ [] } ∷ rest ]

pair_loop_lem :
    (m right : List Tagged) (result : List Row)
    → pair_loop m right result ≡ result ++ paired m right
unfolding pair_loop paired
pair_loop_lem m [] result = sym (append-nil result)
pair_loop_lem m ((t, w) ∷ right) result = elim (Option-cases (find t m)) [
  | inl e ↦ rw (e) (pair_loop_lem m right result ∙ ground (arith, e))
  | inr (v, e) ↦
      let row : Row = record { tag = t; values = v ∷ w ∷ [] } in
      rw (e) (
        pair_loop_lem m right (result ++ (row ∷ []))
        ∙ ground (arith, e, append_assoc result (row ∷ []) (paired m right)))
]

abbrev pub both : Option (List Value) → Option Value → Option (List Value)
both none w = none
both (some vs) none = none
both (some vs) (some w) = some (vs ++ (w ∷ []))

abbrev pub single : Option Value → Option (List Value)
single none = none
single (some v) = some (v ∷ [])

pub paired-Ascending :
    (lo : ℕ) (m right : List Tagged) → Ascending lo right → RowsAscending lo (paired m right)
unfolding paired
paired-Ascending lo m [] a = tt
paired-Ascending lo m ((t, w) ∷ right) (le, a) =
    ground
      (arith, paired-Ascending (t + 1) m right a, RowsAscending-mono lo (t + 1) (paired m right))

pub values_at-paired :
    (lo j : ℕ) (m right : List Tagged)
    → Ascending lo right
    → values_at j (paired m right) ≡ both (single (find j m)) (find j right)
unfolding paired values_at find
values_at-paired lo j m [] a = ground arith
values_at-paired lo j m ((t, w) ∷ right) (le, a) =
    ground (arith, values_at-paired (t + 1) j m right a, find_below (t + 1) j right a)

pub different_col_and_op_lem :
    (left right : List Tagged) (result : List Row)
    → different_col_and_op left right result ≡ result ++ paired (value_map left []) right
unfolding different_col_and_op
different_col_and_op_lem left right result = pair_loop_lem (value_map left []) right result
