-- ===== src/Automerge/Reconstruct/Runs.antt =====
-- What the gathering makes of the records: each run of records with one id, replayed.
use rs_converge.Prelude.{
  ◌≡◌, refl, sym, ap, ◌∙◌, true, false, Option, none, some, List, [], ◌∷◌, ◌++◌, map, arith, inl,
  inr, Option-cases, Bool-cases, append_assoc, append-nil,
}
use rs_converge.Order.Lex.{Bytes, bytes_ord}
use rs_converge.BTree.{BTreeResult, BTreeError, ok, err, ◌>>=◌, result_cases}
use rs_converge.Automerge.Document.{Automerge}
use rs_converge.Automerge.Key.{DocumentChangeKey}
use rs_converge.Automerge.Reconstruct.Grouping.{
  keys-finish, keys-new_pending, keys-apply_pending, id-apply_pending, id-apply,
}
use rs_converge.Automerge.Reconstruct.{
  same_bytes, eq_of_same_bytes, ReconstructedDocument, PendingDocument, ReconstructedRangeDocument,
  new_document, apply, new_pending, apply_pending, finish, reconstruct_from, reconstruct_documents,
}

abbrev pub Record : Type 0
Record = DocumentChangeKey × Bytes

-- Records with one id, by the first and those that follow it.
abbrev pub Run : Type 0
Run = Record × List Record

unfoldable pub join_run : Record → List Run → List Run
join_run e [] = (e, []) ∷ []
join_run e ((f, fs) ∷ runs) = elim (same_bytes e.0.id f.0.id) [
  | true ↦ (e, f ∷ fs) ∷ runs
  | false ↦ (e, []) ∷ (f, fs) ∷ runs
]

-- The records cut where the id changes.
unfoldable pub runs : List Record → List Run
unfolding join_run
runs [] = []
runs (e ∷ es) = join_run e (runs es)

abbrev record_keys : List Record → List DocumentChangeKey
record_keys = map (λ e. e.0)

module _ (am : Automerge) where
  open am use {Doc}

  -- The records applied one after the other, up to the first error.
  unfoldable pub replay :
      List Record → ReconstructedDocument Doc → BTreeResult (ReconstructedDocument Doc)
  replay [] d = ok d
  replay ((key, bytes) ∷ es) d = apply am key bytes d >>= replay es

  abbrev pub rebuild : Run → ReconstructedRangeDocument Doc
  rebuild (e, es) = record {
    keys = record_keys (e ∷ es);
    result = replay (e ∷ es) (new_document am e.0.id);
  }

  -- The records that a pending document takes.
  unfoldable absorb : List Record → PendingDocument Doc → PendingDocument Doc
  absorb [] p = p
  absorb ((key, bytes) ∷ es) p = absorb es (apply_pending am key bytes p)

  -- How a pending document, with what has been read and with what comes, ends.
  unfoldable outcome_of :
      List Record
      → Option BTreeError
      → ReconstructedDocument Doc
      → BTreeResult (ReconstructedDocument Doc)
  outcome_of es (some e) d = err e
  outcome_of es none d = replay es d

  keys-finish-absorb :
      (es : List Record) (p : PendingDocument Doc)
      → (finish am (absorb es p)).keys ≡ p.keys ++ record_keys es
  unfolding absorb
  keys-finish-absorb [] p = keys-finish am p ∙ sym (append-nil p.keys)
  keys-finish-absorb ((key, bytes) ∷ es) p = rw (
    keys-finish-absorb es (apply_pending am key bytes p),
    keys-apply_pending,
    append_assoc p.keys (key ∷ []) (record_keys es),
  )

  outcome_of-apply_pending :
      (key : DocumentChangeKey) (bytes : Bytes) (es : List Record) (p : PendingDocument Doc)
      → outcome_of es (apply_pending am key bytes p).error (apply_pending am key bytes p).document
        ≡ outcome_of ((key, bytes) ∷ es) p.error p.document
  unfolding apply_pending outcome_of replay
  outcome_of-apply_pending key bytes es p =
      ground (arith, Option-cases p.error, result_cases (apply am key bytes p.document))

  result-finish-absorb :
      (es : List Record) (p : PendingDocument Doc)
      → (finish am (absorb es p)).result ≡ outcome_of es p.error p.document
  unfolding absorb finish outcome_of replay
  result-finish-absorb [] p = ground arith
  result-finish-absorb ((key, bytes) ∷ es) p =
      result-finish-absorb es (apply_pending am key bytes p)
      ∙ outcome_of-apply_pending key bytes es p

  outcome_of-new_pending :
      (key : DocumentChangeKey) (bytes : Bytes) (es : List Record)
      → outcome_of es (new_pending am key bytes).error (new_pending am key bytes).document
        ≡ replay ((key, bytes) ∷ es) (new_document am key.id)
  unfolding new_pending outcome_of replay
  outcome_of-new_pending key bytes es =
      ground (arith, result_cases (apply am key bytes (new_document am key.id)))

  -- A run is rebuilt when its first record begins a document and the others are applied to it.
  finish-absorb-new_pending :
      (key : DocumentChangeKey) (bytes : Bytes) (es : List Record)
      → finish am (absorb es (new_pending am key bytes)) ≡ rebuild ((key, bytes), es)
  finish-absorb-new_pending key bytes es =
      let p = new_pending am key bytes in
      let keys : (finish am (absorb es p)).keys ≡ key ∷ record_keys es =
        rw (keys-finish-absorb es p, keys-new_pending) refl in
      let result = result-finish-absorb es p ∙ outcome_of-new_pending key bytes es in
      λ i. record { keys = keys i; result = result i }

  id-new_pending :
      (key : DocumentChangeKey) (bytes : Bytes) → (new_pending am key bytes).document.id ≡ key.id
  unfolding new_pending
  id-new_pending key bytes = grind (arith, id-apply)

  -- What the runs that come make of a pending document, and of themselves.
  unfoldable extend : PendingDocument Doc → List Run → List (ReconstructedRangeDocument Doc)
  extend p [] = finish am p ∷ []
  extend p ((f, fs) ∷ rs) = elim (same_bytes p.document.id f.0.id) [
    | true ↦ finish am (absorb (f ∷ fs) p) ∷ map rebuild rs
    | false ↦ finish am p ∷ map rebuild ((f, fs) ∷ rs)
  ]

  extend-same :
      (key : DocumentChangeKey) (bytes : Bytes) (p : PendingDocument Doc) (rs : List Run)
      → p.document.id ≡ key.id
      → same_bytes p.document.id key.id ≡ true
      → extend (apply_pending am key bytes p) rs ≡ extend p (join_run (key, bytes) rs)
  unfolding extend absorb join_run
  extend-same key bytes p [] e h = ground (arith, h)
  extend-same key bytes p ((f, fs) ∷ rs) e h =
      let same : (apply_pending am key bytes p).document.id ≡ key.id =
        id-apply_pending am key bytes p ∙ e in
      elim (Bool-cases (same_bytes key.id f.0.id)) [
        | inl q ↦ rw (extend, same, q, join_run, h, absorb) refl
        | inr q ↦ rw (extend, same, q, join_run, h, absorb) refl
      ]

  extend-new_pending :
      (key : DocumentChangeKey) (bytes : Bytes) (rs : List Run)
      → extend (new_pending am key bytes) rs ≡ map rebuild (join_run (key, bytes) rs)
  unfolding extend absorb join_run
  extend-new_pending key bytes [] = ground (arith, finish-absorb-new_pending key bytes [])
  extend-new_pending key bytes ((f, fs) ∷ rs) = elim (Bool-cases (same_bytes key.id f.0.id)) [
    | inl q ↦
        rw (extend, id-new_pending key bytes, q, join_run)
          (ap (λ g. g ∷ map rebuild rs) (finish-absorb-new_pending key bytes (f ∷ fs)))
    | inr q ↦
        rw (extend, id-new_pending key bytes, q, join_run)
          (ap (λ g. g ∷ map rebuild ((f, fs) ∷ rs)) (finish-absorb-new_pending key bytes []))
  ]

  extend-other :
      (key : DocumentChangeKey) (bytes : Bytes) (p : PendingDocument Doc) (rs : List Run)
      → same_bytes p.document.id key.id ≡ false
      → extend p (join_run (key, bytes) rs) ≡ finish am p ∷ map rebuild (join_run (key, bytes) rs)
  unfolding extend join_run
  extend-other key bytes p [] h = rw (extend, h) refl
  extend-other key bytes p ((f, fs) ∷ rs) h = elim (Bool-cases (same_bytes key.id f.0.id)) [
    | inl q ↦ rw (join_run, q, extend, h) refl
    | inr q ↦ rw (join_run, q, extend, h) refl
  ]

  reconstruct_from-extend :
      (p : PendingDocument Doc) (es : List Record)
      → reconstruct_from am (some p) (map ok es) ≡ extend p (runs es)
  unfolding reconstruct_from runs extend join_run
  reconstruct_from-extend p [] = refl
  reconstruct_from-extend p ((key, bytes) ∷ es) =
      elim (Bool-cases (same_bytes p.document.id key.id)) [
        | inl q ↦
            rw (reconstruct_from, q, reconstruct_from-extend (apply_pending am key bytes p) es)
              (extend-same key bytes p (runs es) (eq_of_same_bytes p.document.id key.id q) q)
        | inr q ↦
            rw
              (
                reconstruct_from,
                q,
                reconstruct_from-extend (new_pending am key bytes) es,
                extend-new_pending key bytes (runs es),
              )
              (sym (extend-other key bytes p (runs es) q))
      ]

  -- Records that are read without an error of the store are cut into runs where the id changes,
  -- and each run becomes one document: its keys, and all its records applied in their order to a
  -- new document with that id, up to the first that cannot be applied.
  pub reconstruct_documents-runs :
      (es : List Record) → reconstruct_documents am (map ok es) ≡ map rebuild (runs es)
  unfolding reconstruct_documents reconstruct_from runs
  reconstruct_documents-runs [] = refl
  reconstruct_documents-runs ((key, bytes) ∷ es) =
      reconstruct_from-extend (new_pending am key bytes) es ∙ extend-new_pending key bytes (runs es)
