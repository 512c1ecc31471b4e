-- ===== src/Engine/Kernel/Serializable.antt =====
-- What holds in the in-memory kernel after every history of its clients.
use rs_converge.Prelude.{
  ◌≡◌, some, List, ◌==◌, ◌+◌, ◌-◌, ◌<◌, ◌^◌, arith, length, drop, if◌then◌else◌, ℕ,
}
use rs_converge.Engine.{ok, err, custom}
use rs_converge.Value.Json.{ascii}
use rs_converge.Engine.Kernel.{Transaction, commit}
use rs_converge.Engine.Kernel.Session.{Client, Step, call_all, run, initial, replay}
use rs_converge.Engine.Kernel.Isolation.{run-IsWorld, initial-IsWorld, length-run, commit_counted}

-- Every history of fewer than 2^64 steps is serializable: the store holds what the committed
-- transactions make of an empty store when they run one after the other in the order of their
-- commits.
pub tables-run :
    (ss : List Step)
    → length ss < 2 ^ 64
    → (run ss initial).state.tables ≡ (replay (run ss initial).committed).tables
tables-run ss n = let (r, t, h) = run-IsWorld ss initial (omega arith) initial-IsWorld in t

-- After every history of fewer than 2^64 steps a transaction in flight sees the commits up to
-- the one it began at, and its own calls: nothing else that the others do.
pub tables-client :
    (ss : List Step) (i : ℕ) (k : Client)
    → length ss < 2 ^ 64
    → (run ss initial).clients i ≡ some k
    → let css = (run ss initial).committed in
      k.transaction.tables
      ≡ (call_all k.calls (replay (drop (length css - k.transaction.revision) css))).tables
tables-client ss i k n e =
    let (r, t, h) = run-IsWorld ss initial (omega arith) initial-IsWorld in (h i k e).1

-- The first committer wins: in every history of fewer than 2^64 - 1 steps,
-- `commit` of a transaction succeeds
-- exactly if its revision is the number of commits so far, so that none came since it began, and otherwise
-- it reports a conflict and leaves the store as it is.
pub commit-run :
    (ss : List Step) (k : Transaction)
    → length ss < 2 ^ 64 - 1
    → let w = run ss initial in
      commit w.state k ≡ (
        if k.revision == length w.committed
        then (ok tt, record { revision = length w.committed + 1; tables = k.tables })
        else (err (custom (ascii "Transaction conflict")), w.state))
unfolding commit
commit-run ss k n =
    let (r, t, h) = run-IsWorld ss initial (omega arith) initial-IsWorld in
    let m = length-run ss initial in
    commit_counted (run ss initial).state k (length (run ss initial).committed) r (omega arith)
