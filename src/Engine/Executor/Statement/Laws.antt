-- ===== src/Engine/Executor/Statement/Laws.antt =====
-- The transaction of a list of statements (crates/engine/src/executor.rs).
use mathlib.Core.Path.{subst}
use rs_converge.Prelude.{
  sym, ◌⊎◌, inl, inr, Bool-cases, ◌==◌, ◌≡◌, refl, ap, ◌∙◌, List, arith, ℕ, ◌+◌, ◌%◌, ◌^◌,
}
use rs_converge.Order.Lex.{Bytes}
use rs_converge.Value.{Row}
use rs_converge.Value.Json.{Floats, ascii}
use rs_converge.Query.{Statement}
use rs_converge.Engine.{EngineError, ok, err, custom}
use rs_converge.Engine.Action.{◌>>◌, Outcome, done, failed, panicked}
use rs_converge.Engine.RowKey.{Postcard}
use rs_converge.Engine.RowTable.{put_entry, remove_entry}
use rs_converge.Engine.Kernel.{
  State, Transaction, transaction, commit, ensure_table, drop_table, put_bytes, remove_bytes,
}
use rs_converge.Engine.Codec.{RowCodec}
use rs_converge.Engine.Keeps.{IsKept}
use rs_converge.Engine.Executor.{Clock}
use rs_converge.Engine.Executor.Keeps.Statements.{ensure_catalog-keeps, execute_all-keeps}
use rs_converge.Engine.Executor.Statement.{
  execute_statement, execute_all, finish, committed, start, store_of, ensure_catalog,
}

-- How a transaction may end, where its property is `Inv`: it returns its result, and the store has
-- the tables of a transaction with the property, whose revision it had before and is one on; or
-- the store is as it was.
abbrev pub EndsWith : {A : Type 0} → (Transaction → Type 0) → State → Outcome A × State → Type 0
EndsWith Inv end (done a, s) =
    (t : Transaction) × Inv t
    × (t.revision ≡ end.revision)
    × (s ≡ record { revision = (end.revision + 1) % 2 ^ 64; tables = t.tables })
EndsWith Inv end (failed e, s) = s ≡ end
EndsWith Inv end (panicked, s) = s ≡ end

-- The store after a commit.
abbrev advanced : State → Transaction → State
advanced end t = record { revision = (end.revision + 1) % 2 ^ 64; tables = t.tables }

commit-cases :
    (end : State) (t : Transaction)
    → ((end.revision ≡ t.revision) × (commit end t ≡ (ok tt, advanced end t)))
      ⊎ ((e : EngineError) × (commit end t ≡ (err e, end)))
unfolding commit
commit-cases end t = elim (Bool-cases (end.revision == t.revision)) [
  | inl e ↦ inl (ground arith, ground arith)
  | inr e ↦ inr (custom (ascii "Transaction conflict"), ground arith)
]

pub finish-EndsWith :
    {A : Type 0} (Inv : Transaction → Type 0) (end : State) (r : Outcome A × Transaction)
    → Inv r.1
    → EndsWith Inv end (finish end r)
finish-EndsWith Inv end (done a, t) i = elim (commit-cases end t) [
  | inl (e, q) ↦ subst (λ r. EndsWith Inv end (committed a r)) (sym q) (t, i, sym e, refl)
  | inr (e, q) ↦ subst (λ r. EndsWith Inv end (committed a r)) (sym q) refl
]
finish-EndsWith Inv end (failed e, t) i = refl
finish-EndsWith Inv end (panicked, t) i = refl

module _ (Inv : Transaction → Type 0) (codec : RowCodec) ⦃fl : Floats⦄ ⦃pc : Postcard⦄
    ⦃clock : Clock⦄ where
  pub execute_statement-EndsWith :
      (kept : IsKept Inv codec) (statements : List Statement) (now : ℕ) (begin end : State)
      → Inv (transaction begin)
      → EndsWith Inv end (execute_statement codec statements now begin end)
  unfolding execute_statement
  execute_statement-EndsWith kept statements now begin end i =
      finish-EndsWith Inv end
        (store_of
          ((ensure_catalog >> execute_all codec statements) (start (transaction begin) now)))
        (grind (
          arith,
          execute_all-keeps Inv codec kept statements,
          ensure_catalog-keeps Inv codec kept (start (transaction begin) now) i,
        ))

pub ensure_table-revision :
    (name : Bytes) (t : Transaction) → (ensure_table name t).1.revision ≡ t.revision
unfolding ensure_table
ensure_table-revision name t = ground arith

pub drop_table-revision :
    (name : Bytes) (t : Transaction) → (drop_table name t).1.revision ≡ t.revision
unfolding drop_table
drop_table-revision name t = ground arith

module _ ⦃fl : Floats⦄ ⦃pc : Postcard⦄ where
  pub put_entry-revision :
      (name : Bytes) (key value : Row) (t : Transaction)
      → (put_entry name key value t).1.revision ≡ t.revision
  unfolding put_entry put_bytes
  put_entry-revision name key value t = ground arith

  pub remove_entry-revision :
      (name : Bytes) (key : Row) (t : Transaction)
      → (remove_entry name key t).1.revision ≡ t.revision
  unfolding remove_entry remove_bytes
  remove_entry-revision name key t = ground arith

-- The revision of a transaction, which none of its calls changes.
abbrev pub HasRevision : ℕ → Transaction → Type 0
HasRevision revision t = t.revision ≡ revision

-- How a transaction that began at one state of the store ends at another: nothing has committed
-- between, or the store is as it was.
abbrev pub EndsAlone : {A : Type 0} → State → State → Outcome A × State → Type 0
EndsAlone begin end (done a, s) =
    (begin.revision ≡ end.revision) × (s.revision ≡ (begin.revision + 1) % 2 ^ 64)
EndsAlone begin end (failed e, s) = s ≡ end
EndsAlone begin end (panicked, s) = s ≡ end

ends_alone :
    {A : Type 0} (begin end : State) (r : Outcome A × State)
    → EndsWith (HasRevision begin.revision) end r
    → EndsAlone begin end r
ends_alone begin end (done a, s) (t, i, e, q) =
    let same = sym i ∙ e in (same, ap (λ x. x.revision) q ∙ ap (λ n. (n + 1) % 2 ^ 64) (sym same))
ends_alone begin end (failed x, s) h = h
ends_alone begin end (panicked, s) h = h

module _ (codec : RowCodec) ⦃fl : Floats⦄ ⦃pc : Postcard⦄ ⦃clock : Clock⦄ where
  -- Statements with a codec that leaves the revision of the transaction: they return an error or
  -- panic, and the store is as it was by then, or they return their results, the store has the
  -- revision that they began at, and the new one is one on.
  pub execute_statement-EndsAlone :
      ((name : Bytes) (t : Transaction) → (codec.ensure_table name t).1.revision ≡ t.revision)
      → ((name id value : Bytes) (t : Transaction)
          → (codec.merge_row name id value t).1.revision ≡ t.revision)
      → ((name id : Bytes) (t : Transaction) → (codec.remove_row name id t).1.revision ≡ t.revision)
      → (statements : List Statement) (now : ℕ) (begin end : State)
      → EndsAlone begin end (execute_statement codec statements now begin end)
  execute_statement-EndsAlone ensures merges removes statements now begin end =
      let keep : (r : ℕ) → IsKept (HasRevision r) codec = λ r. record {
        ensure_kept = λ name t i. ensure_table-revision name t ∙ i;
        drop_kept = λ name t i. drop_table-revision name t ∙ i;
        put_kept = λ name key value t i. put_entry-revision name key value t ∙ i;
        remove_kept = λ name key t i. remove_entry-revision name key t ∙ i;
        codec_ensure_kept = λ name t i. ensures name t ∙ i;
        codec_merge_kept = λ name id value t i. merges name id value t ∙ i;
        codec_remove_kept = λ name id t i. removes name id t ∙ i;
      } in
      ends_alone begin end (execute_statement codec statements now begin end) (
        execute_statement-EndsWith (HasRevision begin.revision) codec (keep begin.revision)
          statements now begin end refl)
