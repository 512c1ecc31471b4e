-- ===== src/Engine/Index/Laws.antt =====
-- The keys of an index (crates/engine/src/index.rs).
use rs_converge.Prelude.{
  ℕ, suc, ◌+◌, ◌-◌, ◌≡◌, refl, ap, some, List, [], ◌∷◌, ◌++◌, arith, length, take, get_elem?, map,
  Option-cases, inl, inr, length-append, length-map, sym, ◌∙◌,
}
use rs_converge.Order.Lex.{Bytes}
use rs_converge.Value.{Value, Row}
use rs_converge.Schema.{IndexSchema}
use rs_converge.Engine.{ok, traverse, engine_cases}
use rs_converge.Engine.Index.{record_key, indexed_value, last}

-- The values of a row in some columns, which all are in range.
indexed_values :
    (row : Row) (columns : List ℕ) (values : Row)
    → traverse (indexed_value row) columns ≡ ok values
    → map (get_elem? row) columns ≡ map some values
unfolding traverse
indexed_values row [] values h = ground arith
indexed_values row (column ∷ columns) values h = elim (Option-cases (get_elem? row column)) [
  | inl e ↦ absurd (ground arith)
  | inr (v, e) ↦ elim (engine_cases (traverse (indexed_value row) columns)) [
    | inl (vs, q) ↦ ground (arith, indexed_values row columns vs q)
    | inr (x, q) ↦ absurd (ground arith)
  ]
]

last-append : (values : Row) (value : Value) → last (values ++ (value ∷ [])) ≡ some value
last-append [] value = refl
last-append (x ∷ []) value = refl
last-append (x ∷ y ∷ values) value = last-append (y ∷ values) value

take-append :
    (n : ℕ) (values : Row) (value : Value)
    → n ≡ length values
    → take n (values ++ (value ∷ [])) ≡ values
take-append ℕ.zero [] value e = refl
take-append ℕ.zero (x ∷ values) value e = absurd (omega arith)
take-append (suc n) [] value e = absurd (omega arith)
take-append (suc n) (x ∷ values) value e =
    ap (λ xs. x ∷ xs) (take-append n values value (omega arith))

-- The key of a row in an index: without its last value it is the row's values in the columns of
-- the index, in their order, and its last value is the row's UUID.
pub record_key-columns :
    (index : IndexSchema) (id : Bytes) (row key : Row)
    → record_key index id row ≡ ok key
    → (map some (take (length key - 1) key) ≡ map (get_elem? row) index.column_indices)
      × (last key ≡ some (Value.uuid id))
      × (length key ≡ length index.column_indices + 1)
unfolding record_key
record_key-columns index id row key h =
    elim (engine_cases (traverse (indexed_value row) index.column_indices)) [
      | inl (values, q) ↦
          let e = indexed_values row index.column_indices values q in
          let full : length (values ++ (Value.uuid id ∷ [])) ≡ length values + 1 =
            length-append values (Value.uuid id ∷ []) in
          let same : length values ≡ length index.column_indices =
            sym (length-map (λ v. some v) values)
            ∙ (sym (ap length e) ∙ length-map (get_elem? row) index.column_indices) in
          let t =
            take-append (length (values ++ (Value.uuid id ∷ [])) - 1) values (Value.uuid id)
              (omega arith) in
          ground (arith, last-append values (Value.uuid id))
      | inr (x, q) ↦ absurd (ground arith)
    ]
