-- ===== src/Queue/Lifecycle/Runs.antt =====
-- store/store.go: runs of the service and the tickets that are finished.
use mathlib.Core.List.{Memᴰ}
use mathlib.Core.List.Memᴰ.{cases_cons, not-nil, append_left}
use qms.Base.{String, Bool, true, false, List, [], ◌∷◌, ◌≡◌, sym, ◌∙◌, inl, inr, arith, subst}
use qms.Queue.Models.{Status, waiting, called, serving, done, no_show, cancelled, held, status_text}
use qms.Queue.Transitions.{valid_transition}
use qms.Queue.Db.{TicketRow}
use qms.Queue.Tx.{Platform, State}
use qms.Queue.Operations.{Config}
use qms.Queue.Service.{Request, serve, run}
use qms.Queue.Lifecycle.Evolves.{Unique, Evolves}
use qms.Queue.Lifecycle.Requests.{action_of, serve-Continues}

-- The statuses in which a ticket is finished.
abbrev pub is_terminal : Status → Bool
is_terminal done = true
is_terminal no_show = true
is_terminal cancelled = true
is_terminal _ = false

-- No action at all has a finished status as a source.
pub terminal_stuck :
    (action : String) (s : Status)
    → is_terminal s ≡ true
    → valid_transition action (status_text s) ≡ false
unfolding valid_transition status_text
terminal_stuck action done h = ground arith
terminal_stuck action no_show h = ground arith
terminal_stuck action cancelled h = ground arith
terminal_stuck action waiting h = absurd (cc)
terminal_stuck action called h = absurd (cc)
terminal_stuck action serving h = absurd (cc)
terminal_stuck action held h = absurd (cc)

mem-Evolves :
    (a : String) (r : TicketRow) (xs ys : List TicketRow)
    → is_terminal r.status ≡ true
    → Evolves a xs ys
    → Memᴰ r xs
    → Memᴰ r ys
mem-Evolves a r [] ys t e m = absurd (not-nil m)
mem-Evolves a r (x ∷ xs) [] t e m = absurd e
mem-Evolves a r (x ∷ xs) (y ∷ ys) t e m = elim (cases_cons m) [
  | inl q ↦ elim e.0 [
    | inl same ↦ Memᴰ.head (q ∙ sym same)
    | inr (allowed, _, _) ↦ cc (
      terminal_stuck a x.status (subst (λ (z : TicketRow). is_terminal z.status ≡ true) q t),
      allowed,
    )
  ]
  | inr j ↦ Memᴰ.tail (mem-Evolves a r xs ys t e.1 j)
]

pub serve-terminal :
    {B : Type 0} (P : Platform B) (c : Config) (q : Request) (r : TicketRow) (s : State B)
    → Unique s.db.tickets
    → is_terminal r.status ≡ true
    → Memᴰ r s.db.tickets
    → Memᴰ r (serve P c q s).db.tickets
serve-terminal P c q r s u t m =
    let k = serve-Continues P c q s u in
    subst (Memᴰ r) (sym k.grown)
      (append_left k.new (mem-Evolves (action_of q) r s.db.tickets k.kept t k.evolved m))

-- A ticket that is done, cancelled or a no-show stays in the table, column for column, whatever
-- requests follow and whatever fails, if the keys are unique at the start.
pub run-terminal :
    {B : Type 0} (P : Platform B) (c : Config) (qs : List Request) (r : TicketRow) (s : State B)
    → Unique s.db.tickets
    → is_terminal r.status ≡ true
    → Memᴰ r s.db.tickets
    → Memᴰ r (run P c qs s).db.tickets
unfolding run
run-terminal P c [] r s u t m = m
run-terminal P c (q ∷ qs) r s u t m =
    run-terminal P c qs r (serve P c q s) (serve-Continues P c q s u).unique t
      (serve-terminal P c q r s u t m)
