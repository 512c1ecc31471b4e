-- ===== src/Engine/Kernel/Session.antt =====
-- Several clients at one in-memory kernel: every interleaving of their transactions is a list of
-- steps.
use rs_converge.Prelude.{ℕ, Option, none, some, List, [], ◌∷◌, ◌==◌, if◌then◌else◌}
use rs_converge.Order.Lex.{Bytes}
use rs_converge.Engine.{EngineResult, ok, err}
use rs_converge.Engine.Kernel.{
  State, Transaction, Table, new, transaction, ensure_table, drop_table, get_bytes, scan_bytes,
  put_bytes, remove_bytes, commit,
}

-- The calls of `KernelTransaction` before its end.
pub data Call : Type 0 where
  ensure : Bytes → Call
  drop : Bytes → Call
  get : Bytes → Bytes → Call
  scan : Bytes → Call
  put : Bytes → Bytes → Bytes → Call
  remove : Bytes → Bytes → Call

pub data Reply : Type 0 where
  done : EngineResult {0} Unit → Reply
  value : EngineResult (Option Bytes) → Reply
  entries : EngineResult Table → Reply

unfoldable pub call : Call → Transaction → Reply × Transaction
unfolding ensure_table drop_table get_bytes scan_bytes put_bytes remove_bytes
call (ensure name) t = let r = ensure_table name t in (done r.0, r.1)
call (drop name) t = let r = drop_table name t in (done r.0, r.1)
call (get name key) t = (value (get_bytes name key t), t)
call (scan name) t = (entries (scan_bytes name t), t)
call (put name key v) t = let r = put_bytes name key v t in (done r.0, r.1)
call (remove name key) t = let r = remove_bytes name key t in (value r.0, r.1)

-- What calls do to the tables, the newest call first.
unfoldable pub call_all : List Call → Transaction → Transaction
unfolding call
call_all [] t = t
call_all (c ∷ cs) t = (call c (call_all cs t)).1

pub record Client : Type 0 where
  pub transaction : Transaction
  pub calls : List Call

-- The store, the transactions in flight by their number, and the calls of the transactions that
-- have committed, the newest first. `calls` and `committed` record the past: no step reads them.
pub record World : Type 0 where
  pub state : State
  pub clients : ℕ → Option Client
  pub committed : List (List Call)

abbrev pub set {ℓ} : {A : Type ℓ} → ℕ → A → (ℕ → A) → ℕ → A
set i a f j = if i == j then a else f j

-- A step of client `i`: a transaction that is dropped is never committed.
pub data Step : Type 0 where
  begin : ℕ → Step
  act : ℕ → Call → Step
  end : ℕ → Step
  abandon : ℕ → Step

abbrev pub act_client : Call → Client → Client
unfolding call
act_client c k = record { transaction = (call c k.transaction).1; calls = c ∷ k.calls }

-- `commit` takes the transaction, whatever its outcome, which is `r`.
abbrev pub settle : ℕ → Client → EngineResult {0} Unit × State → World → World
settle i k (ok u, s) w = record {
  state = s;
  clients = set i none w.clients;
  committed = k.calls ∷ w.committed;
}
settle i k (err e, s) w = record {
  state = s;
  clients = set i none w.clients;
  committed = w.committed;
}

abbrev pub act_step : ℕ → Call → Option Client → World → World
act_step i c none w = w
act_step i c (some k) w = record {
  state = w.state;
  clients = set i (some (act_client c k)) w.clients;
  committed = w.committed;
}

abbrev pub end_step : ℕ → Option Client → World → World
end_step i none w = w
end_step i (some k) w = settle i k (commit w.state k.transaction) w

unfoldable pub step : Step → World → World
step (begin i) w = record {
  state = w.state;
  clients = set i (some (record { transaction = transaction w.state; calls = [] })) w.clients;
  committed = w.committed;
}
step (act i c) w = act_step i c (w.clients i) w
step (end i) w = end_step i (w.clients i) w
step (abandon i) w = record {
  state = w.state;
  clients = set i none w.clients;
  committed = w.committed;
}

-- The first step first.
unfoldable pub run : List Step → World → World
unfolding step
run [] w = w
run (s ∷ ss) w = run ss (step s w)

abbrev pub initial : World
initial = record { state = new; clients = λ i. none; committed = [] }

-- The transactions one after the other, the newest first, on an empty store.
unfoldable pub replay : List (List Call) → Transaction
unfolding call_all
replay [] = transaction new
replay (cs ∷ css) = call_all cs (replay css)
