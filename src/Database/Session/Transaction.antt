-- ===== src/Database/Session/Transaction.antt =====
-- A transaction is all or nothing, and leaves the connection in its usual mode.
use obelisk_asio_coro.Base.{Bool, true, Bytes, codes, Option, none, some, ◌≡◌, refl, ◌∙◌}
use obelisk_asio_coro.Database.Session.{returned, thrown, ending, close, transaction}

-- What MySQL documents of the five statements on one connection: the rows that the connection sees,
-- those that are stored, and whether it commits by itself. A statement that fails may do anything.
pub record Server (D : Type 0) : Type 1 where
  pub S : Type 0
  pub execute : S → Bytes → Option Bytes × S
  pub seen : S → D
  pub stored : S → D
  pub autocommit : S → Bool
  pub off_seen :
      (s : S)
      → (execute s (codes "SET AUTOCOMMIT=0;")).0 ≡ none
      → seen (execute s (codes "SET AUTOCOMMIT=0;")).1 ≡ seen s
  pub begin_stored :
      (s : S)
      → (execute s (codes "START TRANSACTION;")).0 ≡ none
      → stored (execute s (codes "START TRANSACTION;")).1 ≡ seen s
  pub commit_seen :
      (s : S)
      → (execute s (codes "COMMIT;")).0 ≡ none
      → seen (execute s (codes "COMMIT;")).1 ≡ seen s
  pub rollback_seen :
      (s : S)
      → (execute s (codes "ROLLBACK;")).0 ≡ none
      → seen (execute s (codes "ROLLBACK;")).1 ≡ stored s
  pub on_stored :
      (s : S)
      → (execute s (codes "SET AUTOCOMMIT=1;")).0 ≡ none
      → stored (execute s (codes "SET AUTOCOMMIT=1;")).1 ≡ seen s
  pub on_autocommit :
      (s : S)
      → (execute s (codes "SET AUTOCOMMIT=1;")).0 ≡ none
      → autocommit (execute s (codes "SET AUTOCOMMIT=1;")).1 ≡ true

module _ {D : Type 0} (server : Server D) where
  open server use {
    S, execute, seen, stored, autocommit, off_seen, begin_stored, commit_seen, rollback_seen,
    on_stored, on_autocommit,
  }

  -- The server accepts a statement in every state.
  abbrev pub Accepts : Bytes → Type 0
  Accepts sql = (s : S) → (execute s sql).0 ≡ none

  -- The state in which the function of a transaction runs.
  unfoldable pub begun : S → S
  begun s = (execute (execute s (codes "SET AUTOCOMMIT=0;")).1 (codes "START TRANSACTION;")).1

  begun-stored :
      (s : S)
      → Accepts (codes "SET AUTOCOMMIT=0;")
      → Accepts (codes "START TRANSACTION;")
      → seen s ≡ stored s
      → stored (begun s) ≡ stored s
  unfolding begun
  begun-stored s off begin clean = begin_stored _ (begin _) ∙ (off_seen s (off s) ∙ clean)

  close-committed :
      (s : S)
      → Accepts (codes "COMMIT;")
      → Accepts (codes "SET AUTOCOMMIT=1;")
      → (t : S) × (close execute none s ≡ returned t) × (stored t ≡ seen s) × (autocommit t ≡ true)
  unfolding close
  close-committed s commit on =
      let t = (execute s (codes "COMMIT;")).1 in
      (
        (execute t (codes "SET AUTOCOMMIT=1;")).1,
        rw (commit s, close) (rw (on t, close) refl),
        on_stored t (on t) ∙ commit_seen s (commit s),
        on_autocommit t (on t),
      )

  close-rolled_back :
      (e : Bytes) (s : S)
      → Accepts (codes "ROLLBACK;")
      → Accepts (codes "SET AUTOCOMMIT=1;")
      → (t : S) × (close execute (some e) s ≡ thrown e t)
        × (stored t ≡ stored s)
        × (autocommit t ≡ true)
  unfolding close
  close-rolled_back e s rollback on =
      let t = (execute s (codes "ROLLBACK;")).1 in
      (
        (execute t (codes "SET AUTOCOMMIT=1;")).1,
        rw (rollback s, close) (rw (on t, close) refl),
        on_stored t (on t) ∙ rollback_seen s (rollback s),
        on_autocommit t (on t),
      )

  transaction-close :
      (func : S → Option Bytes × S) (s : S)
      → Accepts (codes "SET AUTOCOMMIT=0;")
      → Accepts (codes "START TRANSACTION;")
      → transaction execute func s ≡ close execute (func (begun s)).0 (func (begun s)).1
  unfolding transaction begun
  transaction-close func s off begin =
      rw (off s, transaction)
        (rw (begin (execute s (codes "SET AUTOCOMMIT=0;")).1, transaction) refl)

  close-stored :
      (o : Option Bytes) (s : S)
      → Accepts (codes "COMMIT;")
      → Accepts (codes "ROLLBACK;")
      → Accepts (codes "SET AUTOCOMMIT=1;")
      → (t : S) × (close execute o s ≡ ending o t)
        × (stored t ≡ elim o [ none ↦ seen s | some e ↦ stored s ])
        × (autocommit t ≡ true)
  close-stored none s commit rollback on = close-committed s commit on
  close-stored (some e) s commit rollback on = close-rolled_back e s rollback on

  -- On a connection that sees what is stored, with a server that accepts the five statements, and for
  -- a function that stores nothing by itself: if the function returns, the transaction returns and what
  -- the function saw at its end is stored; if it throws, the transaction throws the same message and
  -- what was stored before is stored. In both cases the connection commits by itself again.
  pub transaction-atomic :
      (func : S → Option Bytes × S) (s : S)
      → Accepts (codes "SET AUTOCOMMIT=0;")
      → Accepts (codes "START TRANSACTION;")
      → Accepts (codes "COMMIT;")
      → Accepts (codes "ROLLBACK;")
      → Accepts (codes "SET AUTOCOMMIT=1;")
      → seen s ≡ stored s
      → stored (func (begun s)).1 ≡ stored (begun s)
      → (t : S) × (transaction execute func s ≡ ending (func (begun s)).0 t)
        × (stored t
            ≡ elim (func (begun s)).0 [ none ↦ seen (func (begun s)).1 | some e ↦ stored s ])
        × (autocommit t ≡ true)
  transaction-atomic func s off begin commit rollback on clean quiet =
      let (t, closed, kept, usual) =
        close-stored (func (begun s)).0 (func (begun s)).1 commit rollback on in
      (t, transaction-close func s off begin ∙ closed, kept ∙ kept_by (func (begun s)).0, usual)
    where
      kept_by :
          (o : Option Bytes)
          → elim o [ none ↦ seen (func (begun s)).1 | some e ↦ stored (func (begun s)).1 ]
            ≡ elim o [ none ↦ seen (func (begun s)).1 | some e ↦ stored s ]
      kept_by none = refl
      kept_by (some e) = quiet ∙ begun-stored s off begin clean
