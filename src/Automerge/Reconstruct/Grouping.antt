-- ===== src/Automerge/Reconstruct/Grouping.antt =====
-- What the gathering keeps: the keys of all records, in order, and one document to a group.
use rs_converge.Prelude.{
  ◌≡◌, refl, sym, true, Option, none, some, List, [], ◌∷◌, ◌++◌, arith, All, All-append, inl, inr,
  Option-cases, Bool-cases, append_assoc,
}
use rs_converge.Order.Lex.{Bytes, bytes_ord}
use rs_converge.BTree.{ok, err}
use rs_converge.Automerge.Document.{Automerge}
use rs_converge.Automerge.Key.{DocumentChangeKey}
use rs_converge.Automerge.Reconstruct.{
  same_bytes, eq_of_same_bytes, ReconstructedDocument, PendingDocument, ReconstructedRangeDocument,
  Item, apply, new_pending, apply_pending, finish, reconstruct_from, reconstruct_documents,
}

-- the keys of the items that are no errors
abbrev pub item_keys : List Item → List DocumentChangeKey
item_keys [] = []
item_keys (err e ∷ items) = item_keys items
item_keys (ok (key, bytes) ∷ items) = key ∷ item_keys items

module _ {Doc : Type 0} where
  -- the keys of all groups, one group after the other
  abbrev pub group_keys : List (ReconstructedRangeDocument Doc) → List DocumentChangeKey
  group_keys [] = []
  group_keys (g ∷ gs) = g.keys ++ group_keys gs

  abbrev pending_keys : Option (PendingDocument Doc) → List DocumentChangeKey
  pending_keys none = []
  pending_keys (some p) = p.keys

module _ (am : Automerge) where
  open am use {Doc}

  pub keys-finish : (p : PendingDocument Doc) → (finish am p).keys ≡ p.keys
  unfolding finish
  keys-finish p = ground arith

  pub keys-new_pending : (k : DocumentChangeKey) (b : Bytes) → (new_pending am k b).keys ≡ k ∷ []
  unfolding new_pending
  keys-new_pending k b = ground arith

  pub keys-apply_pending :
      (k : DocumentChangeKey) (b : Bytes) (p : PendingDocument Doc)
      → (apply_pending am k b p).keys ≡ p.keys ++ k ∷ []
  unfolding apply_pending
  keys-apply_pending k b p = ground arith

  group_keys-reconstruct_from :
      (pending : Option (PendingDocument Doc)) (items : List Item)
      → group_keys (reconstruct_from am pending items) ≡ pending_keys pending ++ item_keys items
  unfolding reconstruct_from
  group_keys-reconstruct_from none [] = refl
  group_keys-reconstruct_from (some p) [] = rw keys-finish
  group_keys-reconstruct_from none (err e ∷ items) = group_keys-reconstruct_from none items
  group_keys-reconstruct_from (some p) (err e ∷ items) = group_keys-reconstruct_from (some p) items
  group_keys-reconstruct_from none (ok (k, b) ∷ items) =
      rw (group_keys-reconstruct_from (some (new_pending am k b)) items, keys-new_pending)
  group_keys-reconstruct_from (some p) (ok (k, b) ∷ items) = ground (
    arith,
    group_keys-reconstruct_from (some (apply_pending am k b p)) items,
    group_keys-reconstruct_from (some (new_pending am k b)) items,
    keys-apply_pending k b p,
    keys-new_pending k b,
    keys-finish p,
    append_assoc p.keys (k ∷ []) (item_keys items),
  )

  -- The keys of the groups, one after the other, are the keys of the records that were read, in
  -- their order, whatever failed to load.
  pub group_keys-reconstruct_documents :
      (items : List Item) → group_keys (reconstruct_documents am items) ≡ item_keys items
  unfolding reconstruct_documents
  group_keys-reconstruct_documents items = group_keys-reconstruct_from none items

  -- The records of a group belong to the document that it returns.
  abbrev pub IsOneDocument : ReconstructedRangeDocument Doc → Type 0
  IsOneDocument g =
      (d : ReconstructedDocument Doc) → g.result ≡ ok d → All (λ k. k.id ≡ d.id) g.keys

  abbrev IsOnePending : Option (PendingDocument Doc) → Type 0
  IsOnePending none = Unit
  IsOnePending (some p) = All (λ k. k.id ≡ p.document.id) p.keys

  pub id-apply :
      (k : DocumentChangeKey) (b : Bytes) (d d' : ReconstructedDocument Doc)
      → apply am k b d ≡ ok d'
      → d'.id ≡ d.id
  unfolding apply
  id-apply k b d d' h = ground arith

  new_pending-IsOnePending :
      (k : DocumentChangeKey) (b : Bytes) → IsOnePending (some (new_pending am k b))
  unfolding new_pending
  new_pending-IsOnePending k b = grind (arith, id-apply)

  pub id-apply_pending :
      (k : DocumentChangeKey) (b : Bytes) (p : PendingDocument Doc)
      → (apply_pending am k b p).document.id ≡ p.document.id
  unfolding apply_pending
  id-apply_pending k b p = grind (arith, id-apply)

  finish-IsOneDocument :
      (p : PendingDocument Doc) → IsOnePending (some p) → IsOneDocument (finish am p)
  unfolding finish
  finish-IsOneDocument p h d e = elim (Option-cases p.error) [
    | inl none_yet ↦
        let same : p.document ≡ d = ground arith in
        let kept : (finish am p).keys ≡ p.keys = keys-finish p in rw (kept, ← same) h
    | inr failed ↦ cc (failed.1)
  ]

  apply_pending-IsOnePending :
      (k : DocumentChangeKey) (b : Bytes) (p : PendingDocument Doc)
      → same_bytes p.document.id k.id ≡ true
      → IsOnePending (some p)
      → IsOnePending (some (apply_pending am k b p))
  apply_pending-IsOnePending k b p same h =
      rw (keys-apply_pending, id-apply_pending)
        (All-append _ p.keys (k ∷ []) h (sym (eq_of_same_bytes p.document.id k.id same), tt))

  reconstruct_from-IsOneDocument :
      (pending : Option (PendingDocument Doc)) (items : List Item)
      → IsOnePending pending
      → All IsOneDocument (reconstruct_from am pending items)
  unfolding reconstruct_from
  reconstruct_from-IsOneDocument none [] h = tt
  reconstruct_from-IsOneDocument (some p) [] h = (finish-IsOneDocument p h, tt)
  reconstruct_from-IsOneDocument none (err e ∷ items) h =
      (λ d _. tt, reconstruct_from-IsOneDocument none items h)
  reconstruct_from-IsOneDocument (some p) (err e ∷ items) h =
      (λ d _. tt, reconstruct_from-IsOneDocument (some p) items h)
  reconstruct_from-IsOneDocument none (ok (k, b) ∷ items) h =
      reconstruct_from-IsOneDocument (some (new_pending am k b)) items
        (new_pending-IsOnePending k b)
  reconstruct_from-IsOneDocument (some p) (ok (k, b) ∷ items) h =
      elim (Bool-cases (same_bytes p.document.id k.id)) [
        | inl same ↦
            rw (same, reconstruct_from)
              (reconstruct_from-IsOneDocument (some (apply_pending am k b p)) items
                (apply_pending-IsOnePending k b p same h))
        | inr other ↦
            rw (other, reconstruct_from)
              (
                finish-IsOneDocument p h,
                reconstruct_from-IsOneDocument (some (new_pending am k b)) items
                    (new_pending-IsOnePending k b),
              )
      ]

  -- Documents do not mix: a group that reconstructs a document was read from records of that
  -- document alone.
  pub reconstruct_documents-IsOneDocument :
      (items : List Item) → All IsOneDocument (reconstruct_documents am items)
  unfolding reconstruct_documents
  reconstruct_documents-IsOneDocument items = reconstruct_from-IsOneDocument none items tt
