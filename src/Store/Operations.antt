-- ===== src/Store/Operations.antt =====
-- crates/store/src/store.rs: the operations a mapping records, and the options of a query. Values
-- of the JSON library are a type parameter; the trait itself has no body.
use superquery_node.Common.{String, ℕ}

pub data FieldOperator : Type 0 where
  equal not_equal member not_member less less_equal greater greater_equal : FieldOperator

unfoldable pub sql : FieldOperator → String
sql equal = "="
sql not_equal = "!="
sql less = "<"
sql less_equal = "<="
sql greater = ">"
sql greater_equal = ">="
sql member = "IN"
sql not_member = "NOT IN"

pub record FieldExpression (Json : Type 0) : Type 0 where
  pub field : String
  pub operator : FieldOperator
  pub value : Json

pub data OrderDir : Type 0 where
  ascending descending_order : OrderDir

pub record GetOptions : Type 0 where
  pub offset : ℕ
  pub limit : ℕ
  pub order_by : String
  pub order_direction : OrderDir

unfoldable pub default_options : GetOptions
default_options = record { offset = 0; limit = 100; order_by = "id"; order_direction = ascending }

pub data OperationType : Type 0 where
  set_type remove_type : OperationType

unfoldable pub operation_text : OperationType → String
operation_text set_type = "Set"
operation_text remove_type = "Remove"

pub record Operation (Json : Type 0) : Type 0 where
  pub operation : OperationType
  pub entity_type : String
  pub payload : Json
