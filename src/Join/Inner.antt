-- ===== src/Join/Inner.antt =====
-- `DifferentColAndOP` on rows and one more column, and `InnerJoinColumns` on any number of columns.
use tiny_dbms.Base.{
  ℕ, ◌+◌, ◌≤◌, ◌<◌, ◌≡◌, refl, ap, ◌∙◌, sym, List, [], ◌∷◌, ◌++◌, append_assoc, append-nil, Option,
  none, some, arith, All, ok, Option-cases, inl, inr,
}
use tiny_dbms.StdMap.{find, assign, find-assign, find-assign_self, nat_key}
use tiny_dbms.Value.{Value}
use tiny_dbms.Scan.{Tagged}
use tiny_dbms.Join.{
  Row, value_map, row_map, extend_loop, rows_at, extend_rows_and_op, convert_values_to_row,
  join_rest, inner_join_columns,
}
use tiny_dbms.Join.Columns.{
  Ascending, RowsAscending, RowsAscending-mono, find_below, or_else, find-value_map, values_at,
  row_values, find-row_map, Keyed, row_map-Keyed, paired, different_col_and_op_lem, both, single,
  paired-Ascending, values_at-paired,
}

-- A column added to rows that stand in a map.
extended : List (ℕ × Row) → List Tagged → List Row
extended m [] = []
extended m ((t, w) ∷ right) =
    let rest = extended m right in
    elim (find t m) [ none ↦ rest | some r ↦ record r { values = r.values ++ (w ∷ []) } ∷ rest ]

-- A row that stands under a lower tag than those of the column does not matter to the column.
extended-assign :
    (lo t : ℕ) (r : Row) (m : List (ℕ × Row)) (right : List Tagged)
    → Ascending lo right
    → t < lo
    → extended (assign t r m) right ≡ extended m right
unfolding extended
extended-assign lo t r m [] a h = refl
extended-assign lo t r m ((u, w) ∷ right) (le, a) h =
    ground (arith, find-assign t u r m, extended-assign (u + 1) t r m right a)

rows_at-assign :
    (lo t : ℕ) (r : Row) (m : List (ℕ × Row)) (ts : List ℕ)
    → All (λ u. u < lo) ts
    → lo ≤ t
    → rows_at (assign t r m) ts ≡ rows_at m ts
unfolding rows_at
rows_at-assign lo t r m [] b h = refl
rows_at-assign lo t r m (u ∷ ts) (lt, b) h =
    ground (arith, find-assign t u r m, rows_at-assign lo t r m ts b)

rows_at-append :
    (m : List (ℕ × Row)) (ts : List ℕ) (t : ℕ) {r : Row}
    → find t m ≡ some r
    → rows_at m (ts ++ (t ∷ [])) ≡ rows_at m ts ++ (r ∷ [])
unfolding rows_at
rows_at-append m [] t e = ground (arith, e)
rows_at-append m (u ∷ ts) t e = ground (arith, rows_at-append m ts t e)

All-snoc :
    (lo hi : ℕ) (ts : List ℕ) (t : ℕ)
    → All (λ u. u < lo) ts
    → lo ≤ hi
    → t < hi
    → All (λ u. u < hi) (ts ++ (t ∷ []))
All-snoc lo hi [] t b h k = (k, tt)
All-snoc lo hi (u ∷ ts) t (lt, b) h k = (omega arith, All-snoc lo hi ts t b h k)

All-below : (lo hi : ℕ) (ts : List ℕ) → All (λ u. u < lo) ts → lo ≤ hi → All (λ u. u < hi) ts
All-below lo hi [] b h = tt
All-below lo hi (u ∷ ts) (lt, b) h = (omega arith, All-below lo hi ts b h)

abbrev rows_of : List (ℕ × Row) × List ℕ → List Row
rows_of (m, ts) = rows_at m ts

module _ (m : List (ℕ × Row)) (t : ℕ) (w : Value) (right : List Tagged) (cached : List ℕ) where
  extend_none : find t m ≡ none → extend_loop m ((t, w) ∷ right) cached ≡ extend_loop m right cached
  unfolding extend_loop
  extend_none e = rw (e)

  extend_some :
      {r : Row}
      → find t m ≡ some r
      → extend_loop m ((t, w) ∷ right) cached
        ≡ extend_loop
            (assign t (record r { values = r.values ++ (w ∷ []) }) m)
            right
            (cached ++ (t ∷ []))
  unfolding extend_loop
  extend_some e = rw (e)

extend_loop_lem :
    (lo : ℕ) (m : List (ℕ × Row)) (right : List Tagged) (cached : List ℕ)
    → Ascending lo right
    → All (λ u. u < lo) cached
    → rows_of (extend_loop m right cached) ≡ rows_at m cached ++ extended m right
unfolding extend_loop extended
extend_loop_lem lo m [] cached a b = sym (append-nil (rows_at m cached))
extend_loop_lem lo m ((t, w) ∷ right) cached (le, a) b = elim (Option-cases (find t m)) [
  | inl e ↦
      ap rows_of (extend_none m t w right cached e)
      ∙ (extend_loop_lem (t + 1) m right cached a (All-below lo (t + 1) cached b (omega arith))
          ∙ ground (arith, e))
  | inr (r, e) ↦
      let row : Row = record r { values = r.values ++ (w ∷ []) } in
      let m' = assign t row m in
      ap rows_of (extend_some m t w right cached e)
      ∙ (extend_loop_lem (t + 1) m' right (cached ++ (t ∷ [])) a
            (All-snoc lo (t + 1) cached t b (omega arith) (omega arith))
          ∙ ground (
            arith,
            e,
            rows_at-append m' cached t (find-assign_self t row m),
            rows_at-assign lo t row m cached b le,
            extended-assign (t + 1) t row m right a (omega arith),
            append_assoc (rows_at m cached) (row ∷ []) (extended m right),
          ))
]

nothing_found : (i : ℕ) (r : Row) → find i [] ≡ some r → r.tag ≡ i
unfolding find
nothing_found i r e = cc

extended-Ascending :
    (lo : ℕ) (m : List (ℕ × Row)) (right : List Tagged)
    → Keyed m
    → Ascending lo right
    → RowsAscending lo (extended m right)
unfolding extended
extended-Ascending lo m [] k a = tt
extended-Ascending lo m ((t, w) ∷ right) k (le, a) = elim (Option-cases (find t m)) [
  | inl e ↦
      rw (e, extended, RowsAscending)
        (RowsAscending-mono lo (t + 1) (extended m right) (omega arith)
          (extended-Ascending (t + 1) m right k a))
  | inr (r, e) ↦
      rw (e, extended, RowsAscending)
        (ground (arith, k t r e, extended-Ascending (t + 1) m right k a))
]

values_at-extended :
    (lo j : ℕ) (m : List (ℕ × Row)) (right : List Tagged)
    → Keyed m
    → Ascending lo right
    → values_at j (extended m right) ≡ both (row_values (find j m)) (find j right)
unfolding extended values_at find
values_at-extended lo j m [] k a = ground arith
values_at-extended lo j m ((t, w) ∷ right) k (le, a) = elim (Option-cases (find t m)) [
  | inl e ↦
      ground (arith, e, values_at-extended (t + 1) j m right k a, find_below (t + 1) j right a)
  | inr (r, e) ↦
      ground
        (arith, e, k t r e, values_at-extended (t + 1) j m right k a, find_below (t + 1) j right a)
]

-- The values that the columns have under a tag, if each of them has one.
unfoldable pub across : Option (List Value) → ℕ → List (List Tagged) → Option (List Value)
across start j [] = start
across start j (col ∷ cols) = across (both start (find j col)) j cols

abbrev pub all_values : ℕ → List (List Tagged) → Option (List Value)
all_values j cols = across (some []) j cols

start_map : (j : ℕ) (x : Option (List Value)) → or_else x (row_values (find j [])) ≡ x
unfolding find
start_map j none = refl
start_map j (some vs) = refl

extend_rows_lem :
    (lo j : ℕ) (rows : List Row) (col : List Tagged)
    → RowsAscending 0 rows
    → Ascending 0 col
    → RowsAscending 0 (extend_rows_and_op rows col)
      × (values_at j (extend_rows_and_op rows col) ≡ both (values_at j rows) (find j col))
unfolding extend_rows_and_op rows_at
extend_rows_lem lo j rows col a c =
    let m = row_map rows [] in
    let k : Keyed m = row_map-Keyed rows [] (λ i r e. nothing_found i r e) in
    let whole = extend_loop_lem 0 m col [] c tt in
    rw whole (
      extended-Ascending 0 m col k c,
      values_at-extended 0 j m col k c
          ∙ ap (λ x. both x (find j col))
              (find-row_map 0 j rows [] a ∙ start_map j (values_at j rows)),
    )

join_rest_lem :
    (j : ℕ) (rows : List Row) (cols : List (List Tagged))
    → RowsAscending 0 rows
    → All (Ascending 0) cols
    → RowsAscending 0 (join_rest rows cols)
      × (values_at j (join_rest rows cols) ≡ across (values_at j rows) j cols)
unfolding join_rest across
join_rest_lem j rows [] a c = (a, refl)
join_rest_lem j rows (col ∷ cols) a (c, cs) =
    let (a', v) = extend_rows_lem 0 j rows col a c in
    let (b, w) = join_rest_lem j (extend_rows_and_op rows col) cols a' cs in
    (b, w ∙ ap (λ x. across x j cols) v)

singles : List Tagged → List Row
singles [] = []
singles ((t, v) ∷ col) = record { tag = t; values = v ∷ [] } ∷ singles col

convert-singles :
    (rows : List Row) (col : List Tagged) → convert_values_to_row rows col ≡ rows ++ singles col
unfolding convert_values_to_row singles
convert-singles rows [] = sym (append-nil rows)
convert-singles rows ((t, v) ∷ col) =
    let row : Row = record { tag = t; values = v ∷ [] } in
    convert-singles (rows ++ (row ∷ [])) col ∙ append_assoc rows (row ∷ []) (singles col)

singles_lem :
    (lo : ℕ) (col : List Tagged)
    → Ascending lo col
    → RowsAscending lo (singles col) × ((j : ℕ) → values_at j (singles col) ≡ single (find j col))
unfolding singles values_at find
singles_lem lo [] a = (tt, λ j. refl)
singles_lem lo ((t, v) ∷ col) (le, a) =
    let (b, w) = singles_lem (t + 1) col a in ((le, b), λ j. ground (arith, w j))

both_start : (x : Option Value) → single x ≡ both (some []) x
both_start none = refl
both_start (some v) = refl

first_two :
    (col col' : List Tagged) (j : ℕ)
    → Ascending 0 col
    → Ascending 0 col'
    → values_at j (paired (value_map col []) col')
      ≡ both (both (some []) (find j col)) (find j col')
unfolding find
first_two col col' j a a' =
    values_at-paired 0 j (value_map col []) col' a'
    ∙ ap (λ x. both x (find j col'))
        (ap single (find-value_map 0 j col [] a ∙ start_column j (find j col))
          ∙ both_start (find j col))
  where
    start_column : (i : ℕ) (x : Option Value) → or_else x (find i []) ≡ x
    start_column i none = refl
    start_column i (some v) = refl

-- Joining one or more columns whose tags ascend gives rows whose tags ascend: there is a row for
-- exactly the tags that every column has, and it holds the values of the columns in their order.
pub inner_join_columns_lem :
    (col : List Tagged) (cols : List (List Tagged))
    → All (Ascending 0) (col ∷ cols)
    → (rows : List Row) × (inner_join_columns [] (col ∷ cols) ≡ ok rows)
      × RowsAscending 0 rows
      × ((j : ℕ) → values_at j rows ≡ all_values j (col ∷ cols))
unfolding inner_join_columns across find
inner_join_columns_lem col [] (a, _) =
    let (b, w) = singles_lem 0 col a in
    (singles col, ap ok (convert-singles [] col), b, λ j. w j ∙ both_start (find j col))
inner_join_columns_lem col (col' ∷ cols) (a, (a', rest)) =
    let first = paired (value_map col []) col' in
    let joined : (j : ℕ)
        → RowsAscending 0 (join_rest first cols)
          × (values_at j (join_rest first cols) ≡ across (values_at j first) j cols) =
      λ j. join_rest_lem j first cols (paired-Ascending 0 (value_map col []) col' a') rest in
    (
      join_rest first cols,
      ap (λ rows. ok (join_rest rows cols)) (different_col_and_op_lem col col' []),
      (joined 0).0,
      λ j. (joined j).1 ∙ ap (λ x. across x j cols) (first_two col col' j a a'),
    )
