-- ===== src/Doc/Env.antt =====
-- The code outside the package that a document calls: normalizers and change listeners, and the
-- reference counts that keep a removed node object alive.
use atomdoc.Prelude.{ℕ, Bool, Option}
use atomdoc.Prelude.Exec.{Exec}
use atomdoc.Types.{Diff, ChangeEvent}
use atomdoc.Links.{Ref}
use atomdoc.Doc.{Doc}

pub record Env : Type 0 where
  -- the normalizer with this number; it may edit the document
  pub normalize : ℕ → Diff → Exec Doc (Unit {0})
  -- the change listener with this number, and the number of the exception that it raises, if any
  pub listen : ℕ → ChangeEvent → Option ℕ
  -- Someone still holds the object, so a weak reference to it is alive.
  pub held : Ref → Bool
