-- ===== src/Operate/Row.antt =====
-- JointParamRow: the row that INSERT stores, cell by cell.
use tiny_dbms.Base.{
  ◌<◌, ◌^◌, codes, ℕ, zero, suc, ◌+◌, ◌≡◌, ◌≢◌, refl, ap, ◌∙◌, sym, inl, inr, true, Bool-cases,
  List, [], ◌∷◌, map, All, none, some, ◌=str=◌, str_eq→eq, length, get_elem?, arith, ok,
}
use native.Mathlib.Nat.{mod-eq_of_lt}
use tiny_dbms.StdMap.{string_same_iff}
use tiny_dbms.Memory.Buffer.{load_ok, slice_whole}
use tiny_dbms.Value.{
  of_raw, of_int, of_float, of_chars, build_default_value, Value, ValueType, int_t, float_t,
  vchar_t, raw_value_t, get_enum_type, enum_number, copy,
}
use tiny_dbms.Value.Compare.{Floats}
use tiny_dbms.Value.Convert.{stoi, init_value}
use tiny_dbms.Table.{ColumnTable}
use tiny_dbms.Sql.{Column}
use tiny_dbms.Access.{array_at}
use tiny_dbms.Operate.{find_value, set, param_cell, joint_param_row}

pub record Cell : Type 0 where
  pub name : List ℕ
  pub type : ValueType
  pub value : Value

pub get_enum_type-enum_number : (t : ValueType) → get_enum_type (enum_number t) ≡ ok t
unfolding get_enum_type enum_number
get_enum_type-enum_number int_t = refl
get_enum_type-enum_number float_t = refl
get_enum_type-enum_number vchar_t = refl
get_enum_type-enum_number raw_value_t = refl

some_injective {ℓ} : {A : Type ℓ} {a b : A} → some a ≡ some b → a ≡ b
some_injective e = cc

-- The column that find_value has found has the name.
find_value-name :
    (name : List ℕ) (columns : List Column) (i k : ℕ)
    → find_value name columns i ≡ some k
    → (j : ℕ) × (c : Column) × (k ≡ i + j) × (get_elem? columns j ≡ some c) × (c.col_name ≡ name)
unfolding find_value
find_value-name name [] i k e = cc
find_value-name name (column ∷ columns) i k e = elim (Bool-cases (column.col_name =str= name)) [
  | inl hit ↦ (
    0,
    column,
    omega (arith, some_injective (rw hit at e)),
    refl,
    str_eq→eq column.col_name name hit,
  )
  | inr miss ↦
      let (j, c, at, here, same) = find_value-name name columns (suc i) k (rw miss at e) in
      (suc j, c, omega (arith, at), here, same)
]

same_place :
    (a b : List ℕ) (columns : List Column) (k : ℕ)
    → find_value a columns 0 ≡ some k
    → find_value b columns 0 ≡ some k
    → a ≡ b
same_place a b columns k ea eb =
    let (i, c, at, here, same) = find_value-name a columns 0 k ea in
    let (j, d, at', here', same') = find_value-name b columns 0 k eb in
    let places : (i ≡ j) = omega (arith, at, at') in
    let columns_eq : (c ≡ d) = some_injective (sym here ∙ ap (get_elem? columns) places ∙ here') in
    sym same ∙ ap (λ (x : Column). x.col_name) columns_eq ∙ same'

module _ (fl : Floats) (columns : List Column) where
  -- What the statement gives for a column: nothing, and the cell is the default of its type; or a
  -- value at the place of its first mention, whose conversion is the cell.
  pub data CellOf (values : List Value) (cell : Cell) : Type 0 where
    defaulted :
        find_value cell.name columns 0 ≡ none
        → build_default_value cell.type ≡ ok cell.value
        → CellOf values cell
    given :
        (k : ℕ) (raw converted : Value)
        → find_value cell.name columns 0 ≡ some k
        → get_elem? values k ≡ some raw
        → init_value fl raw cell.type ≡ ok (true, converted)
        → copy converted ≡ ok cell.value
        → CellOf values cell

  -- The cells of the columns from number `i` on, whose names are all different.
  abbrev pub Cells : ColumnTable → List Value → ℕ → List Cell → Type 0
  Cells table values i [] = Unit
  Cells table values i (c ∷ cs) =
      (array_at table.columns.column_name_array i ≡ ok c.name)
      × (array_at table.columns.column_type_array i ≡ ok (enum_number c.type))
      × CellOf values c
      × All (λ (d : Cell). d.name ≢ c.name) cs
      × Cells table values (suc i) cs

  get_elem?-set_other {ℓ} :
      {A : Type ℓ} (xs : List A) (i j : ℕ) (v : A)
      → i ≢ j
      → get_elem? (set xs j v) i ≡ get_elem? xs i
  get_elem?-set_other [] i j v ne = refl
  get_elem?-set_other (x ∷ xs) zero zero v ne = absurd (ne refl)
  get_elem?-set_other (x ∷ xs) zero (suc j) v ne = refl
  get_elem?-set_other (x ∷ xs) (suc i) zero v ne = refl
  get_elem?-set_other (x ∷ xs) (suc i) (suc j) v ne =
      get_elem?-set_other xs i j v (λ e. ne (ap suc e))

  -- Converting the value of one column leaves those of the others.
  CellOf-set :
      (values : List Value) (name : List ℕ) (k : ℕ) (u : Value) (d : Cell)
      → find_value name columns 0 ≡ some k
      → d.name ≢ name
      → CellOf values d
      → CellOf (set values k u) d
  CellOf-set values name k u d found other (defaulted absent default) = defaulted absent default
  CellOf-set values name k u d found other (given k' raw converted found' present init copied) =
      given k' raw converted found'
        (get_elem?-set_other values k' k u
            (λ e. other (same_place d.name name columns k (found' ∙ ap some e) found))
          ∙ present)
        init copied

  Cells-set :
      (table : ColumnTable) (values : List Value) (name : List ℕ) (k : ℕ) (u : Value) (i : ℕ)
      (cs : List Cell)
      → find_value name columns 0 ≡ some k
      → All (λ (d : Cell). d.name ≢ name) cs
      → Cells table values i cs
      → Cells table (set values k u) i cs
  Cells-set table values name k u i [] found other cells = tt
  Cells-set table values name k u i (c ∷ cs) found (ne, other)
        (named, typed, cell, distinct, cells) =
      (
        named,
        typed,
        CellOf-set values name k u c found ne cell,
        distinct,
        Cells-set table values name k u (suc i) cs found other cells,
      )

  joint-Cells :
      (table : ColumnTable) (values : List Value) (i : ℕ) (cs : List Cell)
      → Cells table values i cs
      → joint_param_row fl (length cs) i table columns values
        ≡ ok (some (map (λ (c : Cell). c.value) cs))
  unfolding joint_param_row param_cell
  joint-Cells table values i [] cells = refl
  joint-Cells table values i (c ∷ cs) (named, typed, defaulted absent default, distinct, cells) =
      let rest = joint-Cells table values (suc i) cs cells in
      let type = get_enum_type-enum_number c.type in cc
  joint-Cells table values i (c ∷ cs)
        (named, typed, given k raw converted found present init copied, distinct, cells) =
      let rest =
        joint-Cells table (set values k converted) (suc i) cs
          (Cells-set table values c.name k converted (suc i) cs found distinct cells) in
      let type = get_enum_type-enum_number c.type in cc

-- What a statement wants of a column, in words of its own: the first place at which it names the column,
-- and that it does not name it.
pub data FirstNamed (name : List ℕ) : List Column → ℕ → Type 0 where
  named_here : (c : Column) (cs : List Column) → c.col_name ≡ name → FirstNamed name (c ∷ cs) 0
  named_later :
      (c : Column) (cs : List Column) (k : ℕ)
      → c.col_name ≢ name
      → FirstNamed name cs k
      → FirstNamed name (c ∷ cs) (suc k)

abbrev pub NotNamed : List ℕ → List Column → Type 0
NotNamed name columns = All (λ (c : Column). c.col_name ≢ name) columns

-- The defaults: zero, and one blank.
pub data IsDefault : ValueType → Value → Type 0 where
  zero_int :
      IsDefault int_t
        (record { value_type = int_t; num_value = 0; string_value = none; raw_value = [] })
  zero_float :
      IsDefault float_t
        (record { value_type = float_t; num_value = 0; string_value = none; raw_value = [] })
  blank : IsDefault vchar_t (record {
    value_type = vchar_t;
    num_value = 1;
    string_value = some (codes " ");
    raw_value = [];
  })

-- The value of a type that a text stands for. The text is kept.
pub data Reads (fl : Floats) (text : List ℕ) : ValueType → Value → Type 0 where
  int_read :
      (n : ℕ)
      → stoi text ≡ ok n
      → Reads fl text int_t
          (record { value_type = int_t; num_value = n; string_value = none; raw_value = text })
  float_read :
      (x : ℕ)
      → fl.stof text ≡ ok x
      → Reads fl text float_t
          (record { value_type = float_t; num_value = x; string_value = none; raw_value = text })
  text_read :
      length text < 2 ^ 31
      → Reads fl text vchar_t (record {
        value_type = vchar_t;
        num_value = length text;
        string_value = some text;
        raw_value = text;
      })

find_named :
    (name : List ℕ) (columns : List Column) (i k : ℕ)
    → FirstNamed name columns k
    → find_value name columns i ≡ some (i + k)
unfolding find_value
find_named name _ i _ (named_here c cs e) =
    let same = (string_same_iff c.col_name name).1 e in ground arith
find_named name _ i _ (named_later c cs k ne later) = elim (Bool-cases (c.col_name =str= name)) [
  | inl h ↦ absurd (ne (str_eq→eq c.col_name name h))
  | inr h ↦ let rest = find_named name cs (suc i) k later in rw h (rest ∙ ap some (omega arith))
]

find_none :
    (name : List ℕ) (columns : List Column) (i : ℕ)
    → NotNamed name columns
    → find_value name columns i ≡ none
unfolding find_value
find_none name [] i missing = refl
find_none name (c ∷ cs) i (ne, missing) = elim (Bool-cases (c.col_name =str= name)) [
  | inl h ↦ absurd (ne (str_eq→eq c.col_name name h))
  | inr h ↦ rw h (find_none name cs (suc i) missing)
]

build_default : (t : ValueType) (v : Value) → IsDefault t v → build_default_value t ≡ ok v
unfolding build_default_value of_int of_float of_chars
build_default _ _ zero_int = refl
build_default _ _ zero_float = refl
build_default _ _ blank = refl

pub init-Reads :
    (fl : Floats) (text : List ℕ) (t : ValueType) (v : Value)
    → Reads fl text t v
    → (init_value fl (of_raw text) t ≡ ok (true, v)) × (copy v ≡ ok v)
unfolding init_value of_raw copy
init-Reads fl text _ _ (int_read n e) = (cc, refl)
init-Reads fl text _ _ (float_read x e) = (cc, refl)
init-Reads fl text _ _ (text_read short) = (
  rw (mod-eq_of_lt {n = length text} {m = 2 ^ 32} (omega (arith, short))) refl,
  rw (load_ok text 0 (length text) (omega arith), slice_whole text) refl,
)

module _ (fl : Floats) (columns : List Column) where
  -- What the statement wants of a column: its default where it does not name it, and else the value of
  -- its type that the text at the place of the first mention stands for.
  pub data Wants (values : List Value) (cell : Cell) : Type 0 where
    unnamed : NotNamed cell.name columns → IsDefault cell.type cell.value → Wants values cell
    from_text :
        (k : ℕ) (text : List ℕ)
        → FirstNamed cell.name columns k
        → get_elem? values k ≡ some (of_raw text)
        → Reads fl text cell.type cell.value
        → Wants values cell

  Wants-CellOf :
      (values : List Value) (cell : Cell) → Wants values cell → CellOf fl columns values cell
  Wants-CellOf values cell (unnamed missing default) =
      defaulted (find_none cell.name columns 0 missing) (build_default cell.type cell.value default)
  Wants-CellOf values cell (from_text k text named present reads) =
      let (init, copied) = init-Reads fl text cell.type cell.value reads in
      let at : (0 + k ≡ k) = omega arith in
      given k (of_raw text) cell.value (find_named cell.name columns 0 k named ∙ ap some at) present
        init copied

  -- The columns of the table from number `i` on, whose names are all different, and what is wanted of each.
  abbrev pub AllWanted : ColumnTable → List Value → ℕ → List Cell → Type 0
  AllWanted table values i [] = Unit
  AllWanted table values i (c ∷ cs) =
      (array_at table.columns.column_name_array i ≡ ok c.name)
      × (array_at table.columns.column_type_array i ≡ ok (enum_number c.type))
      × Wants values c
      × All (λ (d : Cell). d.name ≢ c.name) cs
      × AllWanted table values (suc i) cs

  AllWanted-Cells :
      (table : ColumnTable) (values : List Value) (i : ℕ) (cs : List Cell)
      → AllWanted table values i cs
      → Cells fl columns table values i cs
  AllWanted-Cells table values i [] wanted = tt
  AllWanted-Cells table values i (c ∷ cs) (named, typed, cell, distinct, wanted) = (
    named,
    typed,
    Wants-CellOf values c cell,
    distinct,
    AllWanted-Cells table values (suc i) cs wanted,
  )

  -- JointParamRow, over columns of different names, makes the row with a cell for each of them in the
  -- order of the table. Where the statement does not name the column, the cell is 0, 0.0 or one blank,
  -- by the type of the column; else it is the number that std::stoi or std::stof reads from the text at
  -- the place of the first mention, or that text, shorter than 2^31 bytes, and keeps the text.
  pub joint_param_row_lem :
      (table : ColumnTable) (values : List Value) (i : ℕ) (cs : List Cell)
      → AllWanted table values i cs
      → joint_param_row fl (length cs) i table columns values
        ≡ ok (some (map (λ (c : Cell). c.value) cs))
  joint_param_row_lem table values i cs wanted =
      joint-Cells fl columns table values i cs (AllWanted-Cells table values i cs wanted)
