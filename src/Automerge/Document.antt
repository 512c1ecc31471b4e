-- ===== src/Automerge/Document.antt =====
-- What the crate uses of the packages that are not its own: automerge's documents, SHA-256 and
-- version 5 UUIDs.
use rs_converge.Prelude.{List}
use rs_converge.Order.Lex.{Bytes}
use rs_converge.BTree.{BTreeResult}

pub record Automerge : Type 1 where
  -- `AutoCommit`
  pub Doc : Type 0
  pub new : Doc
  pub with_actor : Bytes → Doc → Doc
  pub load : Bytes → BTreeResult Doc
  -- the document after it; on an error the caller drops the document
  pub load_incremental : Bytes → Doc → BTreeResult Doc
  -- these take `&mut self`, and commit what is pending in the document
  pub get_heads : Doc → List Bytes × Doc
  pub save : Doc → Bytes × Doc
  pub save_incremental : Doc → Bytes × Doc
  pub sha256 : Bytes → Bytes
  pub uuid_v5 : Bytes → Bytes
