-- ===== src/Join.antt =====
-- The joins of include/sql/executer/operator.h, which put the columns that a scan returned together
-- by their tags. A `Row*` or `Value*` is the row or value it points to; where rows are changed
-- through the pointers of a map, the map holds them until all changes are made.
pub mod Columns
pub mod Inner
use tiny_dbms.Base.{
  ℕ, zero, suc, Bool, true, false, not, List, [], ◌∷◌, ◌++◌, Option, none, some, ltb, leb, ◌==◌,
  if◌then◌else◌, codes, Result, ok, fault, ◌>>=◌, map,
}
use tiny_dbms.StdMap.{find, assign, erase, nat_key}
use tiny_dbms.Value.{Value, of_raw}
use tiny_dbms.Scan.{Tagged}

-- include/meta/value_tag.h.
pub record Row : Type 0 where
  pub tag : ℕ
  pub values : List Value

-- std::set<size_t> by its membership test.
unfoldable pub has_tag : ℕ → List Tagged → Bool
has_tag tag [] = false
has_tag tag ((t, v) ∷ items) = let rest = has_tag tag items in if t == tag then true else rest

same_col_and_loop : List Tagged → List Tagged → List Tagged → List Tagged
same_col_and_loop left [] result = result
same_col_and_loop left ((t, v) ∷ right) result =
    same_col_and_loop left right (if has_tag t left then result ++ ((t, v) ∷ []) else result)

unfoldable pub same_col_and_op : List Tagged → List Tagged → List Tagged → List Tagged
unfolding same_col_and_loop
same_col_and_op left right result = same_col_and_loop left right result

same_col_or_loop : List Tagged → List Tagged → List Tagged → List Tagged
same_col_or_loop left [] result = result
same_col_or_loop left ((t, v) ∷ right) result =
    same_col_or_loop left right (if has_tag t left then result else result ++ ((t, v) ∷ []))

unfoldable pub same_col_or_op : List Tagged → List Tagged → List Tagged → List Tagged
unfolding same_col_or_loop
same_col_or_op left right result = same_col_or_loop left right (result ++ left)

-- `for (auto& item : left_vector) existed_pair[item->first] = &item->second;`
unfoldable pub value_map : List Tagged → List (ℕ × Value) → List (ℕ × Value)
value_map [] m = m
value_map ((t, v) ∷ left) m = value_map left (assign t v m)

pair_loop : List (ℕ × Value) → List Tagged → List Row → List Row
pair_loop existed_pair [] result = result
pair_loop existed_pair ((t, w) ∷ right) result =
    pair_loop existed_pair right (elim (find t existed_pair) [
      | none ↦ result
      | some v ↦ result ++ (record { tag = t; values = v ∷ w ∷ [] } ∷ [])
    ])

-- The first `DifferentColAndOP`, on two columns.
unfoldable pub different_col_and_op : List Tagged → List Tagged → List Row → List Row
unfolding pair_loop
different_col_and_op left right result = pair_loop (value_map left []) right result

unfoldable pub row_map : List Row → List (ℕ × Row) → List (ℕ × Row)
row_map [] m = m
row_map (r ∷ left) m = row_map left (assign r.tag r m)

-- The second one adds a column to rows. It returns the rows in the map and the tags of the rows that
-- `cached_result` points to.
extend_loop : List (ℕ × Row) → List Tagged → List ℕ → List (ℕ × Row) × List ℕ
extend_loop existed_pair [] cached = (existed_pair, cached)
extend_loop existed_pair ((t, w) ∷ right) cached =
    let here = find t existed_pair in
    let pushed = λ (r : Row). record r { values = r.values ++ (w ∷ []) } in
    extend_loop (elim here [ none ↦ existed_pair | some r ↦ assign t (pushed r) existed_pair ])
      right (elim here [ none ↦ cached | some r ↦ cached ++ (t ∷ []) ])

rows_at : List (ℕ × Row) → List ℕ → List Row
rows_at existed_pair [] = []
rows_at existed_pair (t ∷ ts) =
    let rest = rows_at existed_pair ts in
    elim (find t existed_pair) [ none ↦ rest | some r ↦ r ∷ rest ]

unfoldable pub extend_rows_and_op : List Row → List Tagged → List Row
unfolding extend_loop rows_at
extend_rows_and_op left right =
    let (rows, cached) = extend_loop (row_map left []) right [] in rows_at rows cached

-- One row for each value of a single column.
unfoldable pub convert_values_to_row : List Row → List Tagged → List Row
convert_values_to_row result_rows [] = result_rows
convert_values_to_row result_rows ((t, v) ∷ col) =
    convert_values_to_row (result_rows ++ (record { tag = t; values = v ∷ [] } ∷ [])) col

join_rest : List Row → List (List Tagged) → List Row
join_rest rows [] = rows
join_rest rows (col ∷ cols) = join_rest (extend_rows_and_op rows col) cols

-- `assert(cols.size() >= 1)` fails on no column.
unfoldable pub inner_join_columns : List Row → List (List Tagged) → Result (List Row)
unfolding join_rest
inner_join_columns result_rows [] = fault
inner_join_columns result_rows (col ∷ []) = ok (convert_values_to_row result_rows col)
inner_join_columns result_rows (col ∷ col' ∷ cols) =
    ok (join_rest (different_col_and_op col col' result_rows) cols)

-- std::sort by the tag. Rows with one tag, which the scans do not return, keep their order here.
unfoldable pub insert_row : Row → List Row → List Row
insert_row r [] = r ∷ []
insert_row r (s ∷ rows) =
    let rest = insert_row r rows in if leb r.tag s.tag then r ∷ s ∷ rows else s ∷ rest

unfoldable pub sort_rows : List Row → List Row
sort_rows [] = []
sort_rows (r ∷ rows) = insert_row r (sort_rows rows)

abbrev pub none_value : Value
unfolding of_raw
none_value = of_raw (codes "None")

or_loop : List (ℕ × Value) → List Tagged → List Row → List (ℕ × Value) × List Row
or_loop existed_pair [] result = (existed_pair, result)
or_loop existed_pair ((t, w) ∷ right) result =
    let here = find t existed_pair in
    or_loop (elim here [ none ↦ existed_pair | some v ↦ erase t existed_pair ]) right
      (result
        ++ (record { tag = t; values = (elim here [ none ↦ none_value | some v ↦ v ]) ∷ w ∷ [] }
            ∷ []))

unpaired : List (ℕ × Value) → List Row
unpaired [] = []
unpaired ((t, v) ∷ m) = record { tag = t; values = v ∷ none_value ∷ [] } ∷ unpaired m

-- The first `DifferentColOrOP`, on two columns.
unfoldable pub different_col_or_op : List Tagged → List Tagged → List Row → List Row
unfolding or_loop unpaired
different_col_or_op left right result =
    let (remaining, rows) = or_loop (value_map left []) right result in
    sort_rows (rows ++ unpaired remaining)
