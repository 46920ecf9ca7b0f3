-- ===== src/Sql.antt =====
-- include/sql/sql_struct.h: the structures that the parser hands to the executer, and its answers.
pub mod Response
use tiny_dbms.Base.{ℕ, Option, List, codes, ◌=str=◌, if◌then◌else◌, Result, ok, raise, unparsable}
use tiny_dbms.Value.{ValueType}

pub data Comparator : Type 0 where
  bigger less equal not_equal : Comparator

unfoldable pub switch_comparator : List ℕ → Result Comparator
switch_comparator value =
    if value =str= codes ">"
    then ok bigger
    else if value =str= codes "<"
    then ok less
    else if value =str= codes "="
    then ok equal
    else if value =str= codes "!="
    then ok not_equal
    else raise unparsable

pub data OperatorEnum : Type 0 where
  and_op or_op : OperatorEnum

unfoldable pub switch_operator : List ℕ → Result OperatorEnum
switch_operator value =
    if value =str= codes "AND"
    then ok and_op
    else if value =str= codes "OR"
    then ok or_op
    else raise unparsable

pub data SqlState : Type 0 where
  unsubmit parse_error success failure : SqlState

pub record SqlResponse : Type 0 where
  pub sql_state : SqlState
  pub information : List ℕ

-- `delete_from_table_node` is not among the enumerators of the source, but sql_pattern.h uses it.
pub data NodeType : Type 0 where
  create_database_node create_table_node insert_into_table_node : NodeType
  select_from_one_table_node drop_database_node drop_table_node : NodeType
  delete_from_table_node unsupport_node : NodeType

-- A member that is not initialised is `none`.
pub record Column : Type 0 where
  pub col_name : List ℕ
  pub value_type : Option ValueType
  pub col_length : Option ℕ

pub record CompareCondition : Type 0 where
  pub col : Column
  pub condition : Comparator
  pub compare_value : List ℕ
