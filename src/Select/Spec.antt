-- ===== src/Select/Spec.antt =====
-- What a SELECT is to load, in words of its own: the types of its conditions, the columns, and the
-- condition on a column.
use tiny_dbms.Base.{
  ℕ, suc, ◌<◌, ◌^◌, ◌≡◌, ◌≢◌, ◌⊎◌, refl, ap, ◌∙◌, sym, inl, inr, true, false, Bool-cases, List, [],
  ◌∷◌, ◌++◌, append_assoc, append-nil, All, Option, none, some, arith, ok, ltb, ◌=str=◌, str_eq→eq,
}
use tiny_dbms.StdMap.{
  find, assign, string_key, string_same_iff, find-assign_self, find-assign_other,
}
use tiny_dbms.Value.{ValueType, enum_number}
use tiny_dbms.Table.{ColumnTable, Columns}
use tiny_dbms.Sql.{Column, CompareCondition}
use tiny_dbms.Access.{array_at}
use tiny_dbms.Operate.Row.{get_enum_type-enum_number}
use tiny_dbms.Select.{
  type_loop, get_column_value_type, set_condition_cols_value_type, init_condition_map,
  get_condition_on_col, check_col_selected, merge_used_cols,
}

-- The type of the last of the first `n` columns that has the name.
pub data LastNamed (columns : Columns) (name : List ℕ) : ℕ → ValueType → Type 0 where
  last_named :
      (k : ℕ) (t : ValueType)
      → array_at columns.column_name_array k ≡ ok name
      → array_at columns.column_type_array k ≡ ok (enum_number t)
      → LastNamed columns name (suc k) t
  named_before :
      (k : ℕ) (other : List ℕ) (t : ValueType)
      → array_at columns.column_name_array k ≡ ok other
      → other ≢ name
      → LastNamed columns name k t
      → LastNamed columns name (suc k) t

type_loop_lem :
    (columns : Columns) (name : List ℕ) (n : ℕ) (t : ValueType)
    → LastNamed columns name n t
    → type_loop n columns name ≡ ok t
unfolding type_loop
type_loop_lem columns name _ t (last_named k t' named typed) =
    let same = (string_same_iff name name).1 refl in let type = get_enum_type-enum_number t' in cc
type_loop_lem columns name _ t (named_before k other t' named ne before) =
    let rest = type_loop_lem columns name k t' before in
    elim (Bool-cases (other =str= name)) [
      | inl h ↦ absurd (ne (str_eq→eq other name h))
      | inr h ↦ cc
    ]

-- The conditions, each with the type of its column.
abbrev pub AllTyped : ColumnTable → List CompareCondition → List CompareCondition → Type 0
AllTyped table [] [] = Unit
AllTyped table [] (d ∷ ds) = ⊥
AllTyped table (c ∷ cs) [] = ⊥
AllTyped table (c ∷ cs) (d ∷ ds) =
    ((t : ValueType) × LastNamed table.columns c.col.col_name table.column_size t
      × (d ≡ record c { col = record c.col { value_type = some t } }))
    × AllTyped table cs ds

pub set_types_lem :
    (table : ColumnTable) (cs ds : List CompareCondition)
    → table.column_size < 2 ^ 31
    → AllTyped table cs ds
    → set_condition_cols_value_type table cs ≡ ok ds
unfolding set_condition_cols_value_type get_column_value_type
set_types_lem table [] [] small typed = refl
set_types_lem table [] (d ∷ ds) small typed = absurd typed
set_types_lem table (c ∷ cs) [] small typed = absurd typed
set_types_lem table (c ∷ cs) (d ∷ ds) small ((t, last, e), typed) =
    let type = type_loop_lem table.columns c.col.col_name table.column_size t last in
    let rest = set_types_lem table cs ds small typed in
    let int : (ltb table.column_size 2_147_483_648 ≡ true) = ground (arith, small) in
    rw (int, type, rest, e) refl

abbrev pub IsNamed : List Column → List ℕ → Type 0
IsNamed [] name = ⊥
IsNamed (c ∷ columns) name = (c.col_name ≡ name) ⊎ IsNamed columns name

-- The columns of the conditions that are not among the selected ones, one for each such condition.
pub data Unselected (selected : List Column) : List CompareCondition → List Column → Type 0 where
  no_more : Unselected selected [] []
  selected_already :
      (c : CompareCondition) (cs : List CompareCondition) (more : List Column)
      → IsNamed selected c.col.col_name
      → Unselected selected cs more
      → Unselected selected (c ∷ cs) more
  not_selected :
      (c : CompareCondition) (cs : List CompareCondition) (more : List Column)
      → All (λ (d : Column). d.col_name ≢ c.col.col_name) selected
      → Unselected selected cs more
      → Unselected selected (c ∷ cs) (c.col ∷ more)

selected_lem :
    (columns : List Column) (name : List ℕ)
    → IsNamed columns name
    → check_col_selected columns name ≡ true
unfolding check_col_selected
selected_lem [] name h = absurd h
selected_lem (c ∷ columns) name (inl e) = rw ((string_same_iff c.col_name name).1 e) refl
selected_lem (c ∷ columns) name (inr h) =
    let rest = selected_lem columns name h in ground (arith, rest)

unselected_lem :
    (columns : List Column) (name : List ℕ)
    → All (λ (d : Column). d.col_name ≢ name) columns
    → check_col_selected columns name ≡ false
unfolding check_col_selected
unselected_lem [] name h = refl
unselected_lem (c ∷ columns) name (ne, h) = elim (Bool-cases (c.col_name =str= name)) [
  | inl e ↦ absurd (ne (str_eq→eq c.col_name name e))
  | inr e ↦ rw e (unselected_lem columns name h)
]

pub merge_used_cols_lem :
    (selected : List Column) (cs : List CompareCondition) (more before : List Column)
    → Unselected selected cs more
    → merge_used_cols selected cs before ≡ before ++ more
unfolding merge_used_cols
merge_used_cols_lem selected _ _ before no_more = sym (append-nil before)
merge_used_cols_lem selected _ _ before (selected_already c cs more h others) =
    rw (selected_lem selected c.col.col_name h) (merge_used_cols_lem selected cs more before others)
merge_used_cols_lem selected _ _ before (not_selected c cs more h others) =
    rw (unselected_lem selected c.col.col_name h) (
      merge_used_cols_lem selected cs more (before ++ (c.col ∷ [])) others
      ∙ append_assoc before (c.col ∷ []) more)

-- The first of the conditions that is on a column, and that none is.
pub data FirstOn (name : List ℕ) : List CompareCondition → CompareCondition → Type 0 where
  first_on :
      (c : CompareCondition) (cs : List CompareCondition)
      → c.col.col_name ≡ name
      → FirstOn name (c ∷ cs) c
  later_on :
      (c d : CompareCondition) (cs : List CompareCondition)
      → c.col.col_name ≢ name
      → FirstOn name cs d
      → FirstOn name (c ∷ cs) d

abbrev pub NoneOn : List ℕ → List CompareCondition → Type 0
NoneOn name cs = All (λ (c : CompareCondition). c.col.col_name ≢ name) cs

abbrev Conditions : Type 0
Conditions = List (List ℕ × List CompareCondition)

map_none :
    (name : List ℕ) (cs : List CompareCondition) (m : Conditions)
    → NoneOn name cs
    → find name (init_condition_map m cs) ≡ find name m
unfolding init_condition_map
map_none name [] m h = refl
map_none name (c ∷ cs) m (ne, h) =
    map_none name cs _ h ∙ find-assign_other c.col.col_name name _ m (λ e. ne (sym e))

map_some :
    (name : List ℕ) (cs : List CompareCondition) (m : Conditions) (c : CompareCondition)
    (ds : List CompareCondition)
    → find name m ≡ some (c ∷ ds)
    → (es : List CompareCondition) × (find name (init_condition_map m cs) ≡ some (c ∷ es))
unfolding init_condition_map
map_some name [] m c ds e = (ds, e)
map_some name (d ∷ cs) m c ds e = elim (Bool-cases (d.col.col_name =str= name)) [
  | inl h ↦
      let same = str_eq→eq d.col.col_name name h in
      map_some name cs _ c (ds ++ (d ∷ [])) (
        ap
          (λ k.
            find name (assign k (elim (find k m) [ none ↦ d ∷ [] | some xs ↦ xs ++ (d ∷ []) ]) m))
          same
        ∙ ap
            (λ (o : Option (List CompareCondition)).
              find name (assign name (elim o [ none ↦ d ∷ [] | some xs ↦ xs ++ (d ∷ []) ]) m))
            e
        ∙ find-assign_self name (c ∷ (ds ++ (d ∷ []))) m)
  | inr h ↦
      map_some name cs _ c ds (
        find-assign_other d.col.col_name name _ m (λ e'. differ d.col.col_name name h (sym e')) ∙ e)
]
  where
    differ : (a b : List ℕ) → (a =str= b) ≡ false → a ≢ b
    differ a b h e = let same = (string_same_iff a b).1 e in ground arith

map_first :
    (name : List ℕ) (cs : List CompareCondition) (m : Conditions) (c : CompareCondition)
    → find name m ≡ none
    → FirstOn name cs c
    → (es : List CompareCondition) × (find name (init_condition_map m cs) ≡ some (c ∷ es))
unfolding init_condition_map
map_first name _ m _ e (first_on c cs same) = map_some name cs _ c [] (
    ap (λ k. find name (assign k (elim (find k m) [ none ↦ c ∷ [] | some xs ↦ xs ++ (c ∷ []) ]) m))
      same
    ∙ ap
        (λ (o : Option (List CompareCondition)).
          find name (assign name (elim o [ none ↦ c ∷ [] | some xs ↦ xs ++ (c ∷ []) ]) m))
        e
    ∙ find-assign_self name (c ∷ []) m)
map_first name _ m _ e (later_on c d cs ne later) =
    map_first name cs _ d (find-assign_other c.col.col_name name _ m (λ e'. ne (sym e')) ∙ e) later

nothing_there : (name : List ℕ) (m : Conditions) → m ≡ [] → find name m ≡ none
unfolding find
nothing_there name m e = rw e refl

taken_none :
    (m : Conditions) (name : List ℕ) → find name m ≡ none → get_condition_on_col m name ≡ ok none
unfolding get_condition_on_col
taken_none m name e = rw (e, get_condition_on_col) refl

taken_first :
    (m : Conditions) (name : List ℕ) (c : CompareCondition) (es : List CompareCondition)
    → find name m ≡ some (c ∷ es)
    → get_condition_on_col m name ≡ ok (some c)
unfolding get_condition_on_col
taken_first m name c es e = rw (e, get_condition_on_col) refl

pub condition_none :
    (name : List ℕ) (cs : List CompareCondition)
    → NoneOn name cs
    → get_condition_on_col (init_condition_map [] cs) name ≡ ok none
condition_none name cs h =
    taken_none (init_condition_map [] cs) name (map_none name cs [] h ∙ nothing_there name [] refl)

pub condition_first :
    (name : List ℕ) (cs : List CompareCondition) (c : CompareCondition)
    → FirstOn name cs c
    → get_condition_on_col (init_condition_map [] cs) name ≡ ok (some c)
condition_first name cs c h =
    let (es, e) = map_first name cs [] c (nothing_there name [] refl) h in
    taken_first (init_condition_map [] cs) name c es e
