-- ===== src/Query.antt =====
-- crates/query/src/query.rs: the statements that the engine executes, as data.
use rs_converge.Prelude.{ℕ, Bool, Option, none, some, List}
use rs_converge.Order.Lex.{Bytes}
use rs_converge.Value.{Value, Row}
use rs_converge.Schema.{ColumnSchema, IndexSchema, TableSchema}

pub record QueryColumn : Type 0 where
  pub table : Bytes
  pub column : Bytes

pub data QueryJoinKind : Type 0 where
  inner left right full : QueryJoinKind

pub data QuerySortDirection : Type 0 where
  asc desc : QuerySortDirection

pub record QueryOrderBy : Type 0 where
  pub by : QueryColumn
  pub direction : QuerySortDirection

pub data QueryExprValue : Type 0 where
  column : QueryColumn → QueryExprValue
  value : Value → QueryExprValue

pub data QueryCountTarget : Type 0 where
  all_rows : QueryCountTarget
  single distinct : Bytes → QueryCountTarget
  distinct_multi : List Bytes → QueryCountTarget

pub data QueryAggregate : Type 0 where
  count : QueryCountTarget → QueryAggregate
  sum avg min max : QueryColumn → QueryAggregate

-- `Exprs` and `Joins` are `Vec<QueryExpr>` and `Vec<QueryJoin>`, and `Predicate` is
-- `Option<QueryExpr>`.
mutual
  pub data QueryExpr : Type 0 where
    value : QueryExprValue → QueryExpr
    not exists is_null is_not_null : QueryExpr → QueryExpr
    equals not_equals less_than less_than_or_equals : QueryExpr → QueryExpr → QueryExpr
    greater_than greater_than_or_equals : QueryExpr → QueryExpr → QueryExpr
    in_list : QueryExpr → Exprs → Bool → QueryExpr
    in_subquery : QueryExpr → QuerySelect → QueryExpr
    like and or : QueryExpr → QueryExpr → QueryExpr

  pub data Exprs : Type 0 where
    nil : Exprs
    cons : QueryExpr → Exprs → Exprs

  pub data QueryJoin : Type 0 where
    join : (kind : QueryJoinKind) (table : Bytes) (on : QueryExpr) → QueryJoin

  pub data Joins : Type 0 where
    last : Joins
    next : QueryJoin → Joins → Joins

  pub data QueryFrom : Type 0 where
    from : (table : Bytes) (joins : Joins) → QueryFrom

  pub data Predicate : Type 0 where
    absent : Predicate
    given : QueryExpr → Predicate

  pub data QuerySelect : Type 0 where
    select :
        (from : QueryFrom) (projection : List QueryColumn) (predicate : Predicate)
        (aggregates : List QueryAggregate) (group_by : List QueryColumn)
        (order_by : List QueryOrderBy) (limit offset : Option ℕ) (having : Predicate)
        → QuerySelect

pub record QueryUpdateAssignment : Type 0 where
  pub column : QueryColumn
  pub value : QueryExprValue

pub record QueryResultColumn : Type 0 where
  pub name : Bytes
  pub source_table : Option Bytes
  pub source_column : Option Bytes

pub record QueryResult : Type 0 where
  pub rows : List Row
  pub columns : List QueryResultColumn

pub record QueryInsert : Type 0 where
  pub table : Bytes
  pub row : Row
  pub returning : Option (List Bytes)

pub data QueryInsertValue : Type 0 where
  value : Value → QueryInsertValue
  default : QueryInsertValue

pub record QueryInsertValues : Type 0 where
  pub table : Bytes
  pub columns : List Bytes
  pub values : List QueryInsertValue
  pub returning : Option (List Bytes)

pub record QueryUpdate : Type 0 where
  pub from : QueryFrom
  pub assignments : List QueryUpdateAssignment
  pub predicate : Predicate
  pub returning : Option (List QueryColumn)

pub record QueryDelete : Type 0 where
  pub from : QueryFrom
  pub predicate : Predicate
  pub returning : Option (List QueryColumn)

pub data Query : Type 0 where
  select : QuerySelect → Query
  insert : QueryInsert → Query
  insert_values : QueryInsertValues → Query
  update : QueryUpdate → Query
  delete : QueryDelete → Query

pub data AlterTableOperation : Type 0 where
  add_column : ColumnSchema → AlterTableOperation
  drop_column : Bytes → AlterTableOperation
  rename_column : (old_name new_name : Bytes) → AlterTableOperation
  rename_table : (new_name : Bytes) → AlterTableOperation
  add_index : IndexSchema → AlterTableOperation
  rename_index : (old_name new_name : Bytes) → AlterTableOperation
  drop_index : Bytes → AlterTableOperation

pub data AlterIndexOperation : Type 0 where
  rename : (new_name : Bytes) → AlterIndexOperation

pub data DataDefinition : Type 0 where
  create_table : (schema : TableSchema) (if_not_exists : Bool) → DataDefinition
  create_table_with_indexes :
      (schema : TableSchema) (indexes : List IndexSchema) (if_not_exists : Bool) → DataDefinition
  alter_table :
      (table_name : Bytes) (operations : List AlterTableOperation) (if_exists : Bool)
      → DataDefinition
  drop_table : (table_name : Bytes) (if_exists : Bool) → DataDefinition
  create_index : (schema : IndexSchema) (if_not_exists : Bool) → DataDefinition
  create_index_unresolved :
      (index_name table_name : Bytes) (column_names : List Bytes) (unique if_not_exists : Bool)
      → DataDefinition
  alter_index :
      (index_name : Bytes) (operation : AlterIndexOperation) (if_exists : Bool) → DataDefinition
  drop_index : (index_name : Bytes) (if_exists : Bool) → DataDefinition

pub data Statement : Type 0 where
  query : Query → Statement
  data_definition : DataDefinition → Statement

-- `Statement::into_query` and `Statement::into_data_definition`
abbrev pub into_query : Statement → Option Query
into_query (Statement.query q) = some q
into_query (Statement.data_definition _) = none

abbrev pub into_data_definition : Statement → Option DataDefinition
into_data_definition (Statement.query _) = none
into_data_definition (Statement.data_definition d) = some d
