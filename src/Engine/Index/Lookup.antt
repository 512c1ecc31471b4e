-- ===== src/Engine/Index/Lookup.antt =====
-- crates/engine/src/index.rs: `lookup` of a row by the values of an index.
use rs_converge.Prelude.{Option, none, some, ◌==◌, length, if◌then◌else◌}
use rs_converge.Order.Lex.{Bytes}
use rs_converge.Value.{Row}
use rs_converge.Value.Json.{Floats, ascii}
use rs_converge.Schema.{IndexSchema}
use rs_converge.Engine.{EngineResult, ok, err, invalid_query, ◌>>=◌}
use rs_converge.Engine.RowKey.{Postcard}
use rs_converge.Engine.RowTable.{scan_entries}
use rs_converge.Engine.Kernel.{Transaction}
use rs_converge.Engine.Codec.{RowCodec}
use rs_converge.Engine.Catalog.{ok_or}
use rs_converge.Engine.Index.{winner}
use rs_converge.Engine.Index.Schema.{index_schema}

abbrev pub wrong_count : {A : Type 0} → EngineResult A
wrong_count = err (invalid_query (ascii "Index key has the wrong column count"))

abbrev pub row_found : RowCodec → Bytes → Option Bytes → Transaction → EngineResult (Option Row)
row_found codec name none t = ok none
row_found codec name (some row) t = codec.get_row name row t

module _ ⦃fl : Floats⦄ ⦃pc : Postcard⦄ where
  -- The rest of `lookup`, for values that are as many as the columns.
  unfoldable pub lookup_values :
      RowCodec → Bytes → Row → IndexSchema → Transaction → EngineResult (Option Row)
  lookup_values codec name values schema t = do
    entries ← scan_entries name t
    found ← winner values entries
    row_found codec schema.table_name found t

  unfoldable pub lookup : RowCodec → Bytes → Row → Transaction → EngineResult (Option Row)
  lookup codec name values t = do
    found ← index_schema name t
    schema ← ok_or found (invalid_query (ascii "Index not found"))
    if length values == length schema.column_indices
        then lookup_values codec name values schema t
        else wrong_count
