-- ===== src/Engine/Kernel/Isolation.antt =====
-- The in-memory kernel under every interleaving of its clients: what the transactions see, and
-- what the store holds.
use rs_converge.Prelude.{
  Bool-cases, ◌≢◌, ◌⊎◌, ℕ, suc, ◌≡◌, refl, Option, none, some, List, [], ◌∷◌, ◌==◌, ◌+◌, ◌-◌, ◌<◌,
  ◌≤◌, ◌^◌, ◌%◌, arith, length, drop, if◌then◌else◌, inl, inr,
}
use rs_converge.Engine.{EngineResult, ok, err, custom}
use rs_converge.Value.Json.{ascii}
use rs_converge.Engine.Kernel.{
  State, Transaction, transaction, table, ensure_table, drop_table, put_bytes, remove_bytes, commit,
}
use rs_converge.Engine.Kernel.Session.{
  Call, Client, World, act_client, act_step, settle, end_step, Step, begin, act, end, abandon, call,
  call_all, set, step, run, initial, replay,
}

-- A call writes what the tables say, not the revision.
call_tables :
    (c : Call) (t u : Transaction) → t.tables ≡ u.tables → (call c t).1.tables ≡ (call c u).1.tables
unfolding call ensure_table drop_table put_bytes remove_bytes table
call_tables c t u h = ground arith

call_revision : (c : Call) (t : Transaction) → (call c t).1.revision ≡ t.revision
unfolding call ensure_table drop_table put_bytes remove_bytes table
call_revision c t = ground arith

-- What transaction `k` sees: the commits up to the revision it began at, then its own calls.
abbrev pub IsClient : List (List Call) → Client → Type 0
IsClient css k =
    (k.transaction.revision ≤ length css)
    × (k.transaction.tables
        ≡ (call_all k.calls (replay (drop (length css - k.transaction.revision) css))).tables)

abbrev pub AllClients : List (List Call) → (ℕ → Option Client) → Type 0
AllClients css clients = (i : ℕ) (k : Client) → clients i ≡ some k → IsClient css k

-- The store is the commits one after the other, and every transaction sees a prefix of them.
abbrev pub IsWorld : World → Type 0
IsWorld w =
    (w.state.revision ≡ length w.committed)
    × (w.state.tables ≡ (replay w.committed).tables)
    × AllClients w.committed w.clients

IsClient-commit :
    (css : List (List Call)) (cs : List Call) (k : Client) → IsClient css k → IsClient (cs ∷ css) k
IsClient-commit css cs k (h, e) =
    let n : suc (length css) - k.transaction.revision ≡ suc (length css - k.transaction.revision) =
      omega arith in
    (omega arith, rw n e)

module _ {A : Type 0} (P : A → Type 0) (f : ℕ → Option A) (i : ℕ) where
  abbrev Every : (ℕ → Option A) → Type 0
  Every g = (j : ℕ) (a : A) → g j ≡ some a → P a

  set-some-Every : (a : A) → Every f → P a → Every (set i (some a) f)
  set-some-Every a h g j b e = elim (Bool-cases (i == j)) [
    | inl p ↦ (let q : some a ≡ some b = rw p at e in let r : a ≡ b = cc in rw r at g)
    | inr p ↦ h j b (rw p at e)
  ]

  set-none-Every : Every f → Every (set i none f)
  set-none-Every h j b e = elim (Bool-cases (i == j)) [
    | inl p ↦ (let q : none ≡ some b = rw p at e in cc)
    | inr p ↦ h j b (rw p at e)
  ]

IsClient-begin :
    (s : State) (css : List (List Call))
    → s.revision ≡ length css
    → s.tables ≡ (replay css).tables
    → IsClient css (record { transaction = transaction s; calls = [] })
unfolding call_all
IsClient-begin s css r t =
    let n : length css - s.revision ≡ 0 = omega arith in (omega arith, rw n t)

IsClient-act :
    (css : List (List Call)) (c : Call) (k : Client)
    → IsClient css k
    → IsClient css (act_client c k)
unfolding call_all
IsClient-act css c k (h, e) = rw (call_revision c k.transaction) (
  h,
  call_tables c k.transaction
      (call_all k.calls (replay (drop (length css - k.transaction.revision) css))) e,
)

step-begin : (i : ℕ) (w : World) → IsWorld w → IsWorld (step (begin i) w)
unfolding step
step-begin i w (r, t, h) = (
  r,
  t,
  set-some-Every (IsClient w.committed) w.clients i
      (record { transaction = transaction w.state; calls = [] }) h
      (IsClient-begin w.state w.committed r t),
)

step-abandon : (i : ℕ) (w : World) → IsWorld w → IsWorld (step (abandon i) w)
unfolding step
step-abandon i w (r, t, h) = (r, t, set-none-Every (IsClient w.committed) w.clients i h)

IsWorld-act_step :
    (i : ℕ) (c : Call) (o : Option Client) (w : World)
    → w.clients i ≡ o
    → IsWorld w
    → IsWorld (act_step i c o w)
IsWorld-act_step i c none w q g = g
IsWorld-act_step i c (some k) w q (r, t, h) = (
  r,
  t,
  set-some-Every (IsClient w.committed) w.clients i (act_client c k) h
      (IsClient-act w.committed c k (h i k q)),
)

commit-eq :
    (s : State) (t : Transaction)
    → s.revision ≡ t.revision
    → commit s t ≡ (ok tt, record { revision = (s.revision + 1) % 2 ^ 64; tables = t.tables })
unfolding commit
commit-eq s t h = ground arith

commit-ne :
    (s : State) (t : Transaction)
    → s.revision ≢ t.revision
    → commit s t ≡ (err (custom (ascii "Transaction conflict")), s)
unfolding commit
commit-ne s t h = ground arith

-- The tables of a transaction that nobody committed beside.
tables_current :
    (css : List (List Call)) (k : Client)
    → IsClient css k
    → k.transaction.revision ≡ length css
    → k.transaction.tables ≡ (replay (k.calls ∷ css)).tables
unfolding replay
tables_current css k (h, e) r =
    let n : length css - k.transaction.revision ≡ 0 = omega arith in rw n at e

eq_cases : (a b : ℕ) → (a ≡ b) ⊎ (a ≢ b)
eq_cases a b = elim (Bool-cases (a == b)) [
  | inl q ↦ inl (ground arith)
  | inr q ↦ inr (ground arith)
]

IsWorld-settle :
    (i : ℕ) (k : Client) (w : World)
    → suc (length w.committed) < 2 ^ 64
    → IsWorld w
    → IsClient w.committed k
    → IsWorld (settle i k (commit w.state k.transaction) w)
IsWorld-settle i k w n (r, t, h) g = elim (eq_cases w.state.revision k.transaction.revision) [
  | inl q ↦ rw (commit-eq w.state k.transaction q) (
    omega arith,
    tables_current w.committed k g (omega arith),
    set-none-Every (IsClient (k.calls ∷ w.committed)) w.clients i
        (λ j l e. IsClient-commit w.committed k.calls l (h j l e)),
  )
  | inr q ↦
      rw (commit-ne w.state k.transaction q)
        (r, t, set-none-Every (IsClient w.committed) w.clients i h)
]

IsWorld-end_step :
    (i : ℕ) (o : Option Client) (w : World)
    → suc (length w.committed) < 2 ^ 64
    → w.clients i ≡ o
    → IsWorld w
    → IsWorld (end_step i o w)
IsWorld-end_step i none w n q g = g
IsWorld-end_step i (some k) w n q (r, t, h) = IsWorld-settle i k w n (r, t, h) (h i k q)

step-IsWorld :
    (s : Step) (w : World) → suc (length w.committed) < 2 ^ 64 → IsWorld w → IsWorld (step s w)
unfolding step
step-IsWorld (begin i) w n g = step-begin i w g
step-IsWorld (act i c) w n g = IsWorld-act_step i c (w.clients i) w refl g
step-IsWorld (end i) w n g = IsWorld-end_step i (w.clients i) w n refl g
step-IsWorld (abandon i) w n g = step-abandon i w g

length-settle :
    (i : ℕ) (k : Client) (r : EngineResult {0} Unit × State) (w : World)
    → length (settle i k r w).committed ≤ suc (length w.committed)
length-settle i k (ok u, s) w = omega arith
length-settle i k (err e, s) w = omega arith

length-end_step :
    (i : ℕ) (o : Option Client) (w : World)
    → length (end_step i o w).committed ≤ suc (length w.committed)
length-end_step i none w = omega arith
length-end_step i (some k) w = length-settle i k (commit w.state k.transaction) w

length-act_step :
    (i : ℕ) (c : Call) (o : Option Client) (w : World)
    → length (act_step i c o w).committed ≤ suc (length w.committed)
length-act_step i c none w = omega arith
length-act_step i c (some k) w = omega arith

length-step : (s : Step) (w : World) → length (step s w).committed ≤ suc (length w.committed)
unfolding step
length-step (begin i) w = omega arith
length-step (act i c) w = length-act_step i c (w.clients i) w
length-step (end i) w = length-end_step i (w.clients i) w
length-step (abandon i) w = omega arith

pub run-IsWorld :
    (ss : List Step) (w : World)
    → length w.committed + length ss < 2 ^ 64
    → IsWorld w
    → IsWorld (run ss w)
unfolding run
run-IsWorld [] w n g = g
run-IsWorld (s ∷ ss) w n g =
    run-IsWorld ss (step s w) (omega (arith, length-step s w)) (step-IsWorld s w (omega arith) g)

pub length-run :
    (ss : List Step) (w : World) → length (run ss w).committed ≤ length w.committed + length ss
unfolding run
length-run [] w = omega arith
length-run (s ∷ ss) w = omega (arith, length-run ss (step s w), length-step s w)

pub commit_counted :
    (s : State) (t : Transaction) (n : ℕ)
    → s.revision ≡ n
    → n < 2 ^ 64 - 1
    → commit s t ≡ (
        if t.revision == n
        then (ok tt, record { revision = n + 1; tables = t.tables })
        else (err (custom (ascii "Transaction conflict")), s))
unfolding commit
commit_counted s t n h b = ground arith

pub initial-IsWorld : IsWorld initial
unfolding replay
initial-IsWorld = (refl, refl, λ i k e. cc)
