-- ===== src/Queue/Tx/Quiet.antt =====
-- Statements on a database that does not fail.
use qms.Base.{ℕ, ◌+◌, false, Option, ◌≡◌}
use qms.Queue.Db.{Db}
use qms.Queue.Tx.{
  Platform, State, Tx, ok, statement, query, exec, finish, next_tick, transact, close, Answer,
}

-- No statement fails.
abbrev pub IsQuiet : {B : Type 0} → Platform B → Type 0
IsQuiet P = (n : ℕ) → P.fails n ≡ false

module _ {B : Type 0} (P : Platform B) (quiet : IsQuiet P) where
  pub statement_quiet :
      {A : Type 0} (f : ℕ → Db B → Option (A × Db B)) (s : State B)
      → statement P f s ≡ finish P (f s.tick s.db) s
  unfolding statement
  statement_quiet f s = rw (quiet s.tick)

  pub query_quiet :
      {A : Type 0} (f : Db B → A) (s : State B) → query P f s ≡ (ok (f s.db), next_tick s)
  unfolding query
  query_quiet f s = statement_quiet _ s

  pub exec_quiet :
      (f : Db B → Db B) (s : State B)
      → exec P f s ≡ (ok tt, record s { db = f s.db; tick = s.tick + 1 })
  unfolding exec
  exec_quiet f s = statement_quiet _ s

  pub transact_quiet :
      {A : Type 0} (m : Tx B (Answer A)) (s : State B)
      → transact P m s ≡ close P s.db (m (next_tick s)).0 (m (next_tick s)).1
  unfolding transact
  transact_quiet m s = rw (quiet s.tick)
