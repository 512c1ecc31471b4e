-- ===== src/Engine/Tests.antt =====
-- The engine's storage at concrete inputs, with toy floats and a toy `postcard`.
use rs_converge.Prelude.{
  ◌≡◌, refl, some, List, [], ◌∷◌, ◌==◌, ◌+◌, ◌-◌, arith, length, drop, map, true, if◌then◌else◌,
}
use rs_converge.Int.{pos, negsuc}
use rs_converge.Order.{then_with}
use rs_converge.Order.Lex.{Bytes, bytes_ord, cmp_bytes, cmp_list}
use rs_converge.BTreeMap
use rs_converge.BTreeMap.Lookup.{at_key}
use rs_converge.Value.{Value, Row, IsRow, cmp_row}
use rs_converge.Value.Json.{Floats, ascii}
use rs_converge.Engine.{ok, err, custom}
use rs_converge.Engine.RowKey.{Postcard, encode_key, decode_key, encode_value}
use rs_converge.Engine.RowKey.Order.{cmp_bytes-encode_key}
use rs_converge.Engine.RowKey.Codec.{decode_key-encode_key}
use rs_converge.BTreeMap.{unbounded, excluded}
use rs_converge.BTree
use rs_converge.BTree.{BTreeResult}
use rs_converge.Engine.BytesTable
use rs_converge.Engine.BytesTable.{range-update}
use rs_converge.Engine.RowTable.{get_entry, put_entry, get_entry-put_entry}
use rs_converge.Engine.Kernel.{Transaction, Table, table, commit, ensure_table}
use rs_converge.Engine.Kernel.Session.{
  Client, Step, begin, act, end, ensure, put, step, call, call_all, run, initial, replay,
}
use rs_converge.Engine.Kernel.Serializable.{tables-run, tables-client, commit-run}

abbrev row_a : Row
row_a = Value.integer (negsuc 4) ∷ Value.text (0 ∷ 7 ∷ []) ∷ []

abbrev row_b : Row
row_b = Value.integer (pos 2) ∷ Value.bool true ∷ []

instance abbrev toy_floats : Floats
toy_floats = record { show_float = λ f. f ∷ []; float_of = λ i. 0; float_eq = λ a b. a == b }

-- It reads back one row.
instance abbrev toy_postcard : Postcard
toy_postcard = record { to_bytes = λ r. 42 ∷ []; from_bytes = λ b. ok row_a }

row_a-IsRow : IsRow row_a
row_a-IsRow = (omega arith, (tt, tt))

row_b-IsRow : IsRow row_b
row_b-IsRow = (omega arith, (tt, tt))

cmp_bytes-encode_key_example :
    cmp_bytes (encode_key row_a) (encode_key row_b)
    ≡ then_with (cmp_row row_a row_b) (cmp_bytes (encode_value row_a) (encode_value row_b))
cmp_bytes-encode_key_example = cmp_bytes-encode_key row_a row_b row_a-IsRow row_b-IsRow

decode_key-encode_key_example : decode_key (encode_key row_a) ≡ ok row_a
decode_key-encode_key_example = decode_key-encode_key row_a row_a-IsRow refl

-- Two transactions at once, and the second to commit conflicts.
abbrev users : Bytes
users = ascii "users"

abbrev history : List Step
history =
    begin 0
    ∷ begin 1
    ∷ act 0 (ensure users)
    ∷ act 0 (put users (1 ∷ []) (9 ∷ []))
    ∷ act 1 (ensure users)
    ∷ end 0
    ∷ end 1
    ∷ []

tables-run_example :
    (run history initial).state.tables ≡ (replay (run history initial).committed).tables
tables-run_example = tables-run history (omega arith)

-- A transaction that began on an empty store.
abbrev stale : Transaction
stale = record { revision = 0; tables = [] }

commit-run_example : commit (run history initial).state stale ≡ (
    if stale.revision == length (run history initial).committed
    then (
      ok tt,
      record { revision = length (run history initial).committed + 1; tables = stale.tables },
    )
    else (err (custom (ascii "Transaction conflict")), (run history initial).state))
commit-run_example = commit-run history stale (omega arith)

abbrev short : List Step
short = begin 0 ∷ act 0 (ensure users) ∷ []

abbrev busy : Client
busy = record {
  transaction = record { revision = 0; tables = (users, []) ∷ [] };
  calls = ensure users ∷ [];
}

busy_runs : (run short initial).clients 0 ≡ some busy
unfolding run step call BTreeMap.get BTreeMap.insert ensure_table
busy_runs = refl

tables-client_example :
    let css = (run short initial).committed in
    busy.transaction.tables
    ≡ (call_all busy.calls (replay (drop (length css - busy.transaction.revision) css))).tables
tables-client_example = tables-client short 0 busy (omega arith) busy_runs

-- A transaction with one empty table.
abbrev open_users : Transaction
open_users = record { revision = 0; tables = (users, []) ∷ [] }

users_there : table users open_users ≡ ok []
unfolding table BTreeMap.get cmp_list
users_there = refl

get_entry-put_entry_example :
    get_entry users row_b (put_entry users row_a row_a open_users).1
    ≡ at_key users users
        (at_key
          (encode_key row_a)
          (encode_key row_b)
          (ok (some row_a))
          (get_entry users row_b open_users))
        (get_entry users row_b open_users)
get_entry-put_entry_example =
    get_entry-put_entry users users row_a row_b row_a [] open_users users_there refl

abbrev five_six : Table
five_six = (1 ∷ [], 5 ∷ []) ∷ (2 ∷ [], 6 ∷ []) ∷ []

abbrev seven : Table
seven = (1 ∷ [], 7 ∷ []) ∷ []

-- A table with two entries, whose first one is updated.
abbrev filled : Transaction
filled = record { revision = 0; tables = (users, five_six) ∷ [] }

filled_there : table users filled ≡ ok five_six
unfolding table BTreeMap.get cmp_list
filled_there = refl

first_found : BTreeMap.get {V = Bytes} (1 ∷ []) five_six ≡ some (5 ∷ [])
unfolding BTreeMap.get cmp_list
first_found = refl

in_range :
    BTreeMap.range {V = Bytes} unbounded
      (excluded (2 ∷ []))
      (BTreeMap.insert (1 ∷ []) (7 ∷ []) five_six)
    ≡ some seven
unfolding BTreeMap.range BTreeMap.range_panics BTreeMap.select BTreeMap.insert cmp_list
in_range = refl

abbrev to_seven : Bytes → BTreeResult Bytes
to_seven value = BTree.ok (7 ∷ [])

range-update_example :
    ((BytesTable.update (λ e. []) users (1 ∷ []) to_seven filled).0 ≡ BTree.ok (some tt))
    × (BytesTable.range
          (λ e. [])
          users
          unbounded
          (excluded (2 ∷ []))
          (BytesTable.update (λ e. []) users (1 ∷ []) to_seven filled).1
        ≡ map (λ e. BTree.ok e) seven)
range-update_example =
    range-update (λ e. []) users (1 ∷ []) (5 ∷ []) (7 ∷ []) to_seven unbounded (excluded (2 ∷ []))
      five_six seven filled filled_there first_found refl in_range
