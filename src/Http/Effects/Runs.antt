-- ===== src/Http/Effects/Runs.antt =====
-- services/queue-service/internal/httpapi: one HTTP request after another.
use mathlib.Core.List.{Memᴰ}
use qms.Base.{true, List, [], ◌∷◌, ◌≡◌, sym, subst, inl, inr}
use qms.Queue.Db.{Db, TicketRow}
use qms.Queue.Tx.{Platform, State}
use qms.Queue.Lifecycle.Evolves.{Unique}
use qms.Queue.Lifecycle.Requests.{serve-Continues}
use qms.Queue.Lifecycle.Runs.{is_terminal, serve-terminal}
use qms.Queue.Chain.Linked.{IsChained}
use qms.Queue.Chain.Requests.{serve-IsChained}
use qms.Queue.Service.{Request, serve}
use qms.Http.Messages.{HttpRequest, Parsers}
use qms.Http.Routes.{HandlerConfig, handle}
use qms.Http.Effects.{Effect}
use qms.Http.Effects.Granted.{handle-IsGranted}

module _ {B : Type 0} (P : Platform B) (T : Parsers) (h : HandlerConfig) where
  -- The state after the requests, whatever their answers.
  unfoldable pub answer_all : List HttpRequest → State B → State B
  answer_all [] s = s
  answer_all (r ∷ rs) s = answer_all rs (handle P T h r s).1

  -- What every request to the store keeps, every run of HTTP requests keeps.
  module _ (Q : Db B → Type 0)
      (kept : (q : Request) (s : State B) → Q s.db → Q (serve P h.store q s).db) where
    effect_keeps : (A : Request → Type 0) (d d' : Db B) → Effect P h.store A d d' → Q d → Q d'
    effect_keeps A d d' (inl same) k = subst Q (sym same) k
    effect_keeps A d d' (inr (q, s, at, allowed, done)) k =
        subst Q done (kept q s (subst Q (sym at) k))

    answer_all_keeps : (rs : List HttpRequest) (s : State B) → Q s.db → Q (answer_all rs s).db
    unfolding answer_all
    answer_all_keeps [] s k = k
    answer_all_keeps (r ∷ rs) s k =
        answer_all_keeps rs _ (effect_keeps _ _ _ (handle-IsGranted P T h r s) k)

  -- A ticket that is done, cancelled or a no-show stays in the table, column for column, whatever
  -- HTTP requests follow, if the keys are unique at the start.
  pub answer_all-terminal :
      (rs : List HttpRequest) (r : TicketRow) (s : State B)
      → Unique s.db.tickets
      → is_terminal r.status ≡ true
      → Memᴰ r s.db.tickets
      → Memᴰ r (answer_all rs s).db.tickets
  answer_all-terminal rs r s u t m =
      (answer_all_keeps (λ d. Unique d.tickets × Memᴰ r d.tickets)
        (λ q z k.
          ((serve-Continues P h.store q z k.0).unique, serve-terminal P h.store q r z k.0 t k.1))
        rs s (u, m)).1

  -- Whatever HTTP requests follow, the log of events stays chained, if it was so at the start: the rows
  -- of a ticket are numbered without a gap, each holds the hash of the row before it, and its own hash
  -- is that of this one and of the event as it was before its payload and its time were stored.
  pub answer_all-IsChained :
      (rs : List HttpRequest) (s : State B)
      → IsChained P s.db.ticket_events
      → IsChained P (answer_all rs s).db.ticket_events
  answer_all-IsChained rs s k =
      answer_all_keeps (λ d. IsChained P d.ticket_events) (serve-IsChained P h.store) rs s k
