-- ===== src/Realtime/Pages.antt =====
-- services/realtime-service: `ListOutboxEvents` from one round of polling to the next.
use mathlib.Core.List.{Memᴰ}
use mathlib.Core.List.Memᴰ.{not-nil}
use qms.Base.{
  Ordered, last_of, last-All, take-Ordered, take-or_after, sort_by-Ordered, before_last, ℕ, zero,
  suc, String, Bool, true, false, not, ◌&&◌, ◌||◌, some, List, [], ◌∷◌, ◌≡◌, refl, sym, ap, ◌∙◌,
  subst, ◌==◌, ◌⊎◌, ◌+◌, inl, inr, if◌then◌else◌, ltb, take, sort_by, All, All-take, All-sort_by,
  All-select, All-mem, mem-All, mem-sort_by, select-mem, Bool-cases, arith,
}
use qms.Base.Int.{ℤ, pos, negsuc, is_positive, pos_part}
use qms.Queue.Db.{OutboxEvent}
use qms.Queue.Tx.{Platform}
use qms.Realtime.Polling.{
  OutboxOffset, Codec, Server, attempt, after_offset, not_after, listed, publish, publish_all, poll,
  publish_listed, list_outbox_events,
}
use qms.Realtime.Retention.{settle-offset}

keys_total :
    (a b : ℕ) (p q : Bool)
    → (p ≡ true → q ≡ false)
    → (ltb a b || (a == b && not p)) ≡ false
    → (ltb b a || (b == a && not q)) ≡ true
keys_total a b p q asym h = ground (arith, asym, h)

keys_trans :
    (a b c : ℕ) (p q r : Bool)
    → (p ≡ false → q ≡ false → r ≡ false)
    → (ltb a b || (a == b && not p)) ≡ true
    → (ltb b c || (b == c && not q)) ≡ true
    → (ltb a c || (a == c && not r)) ≡ true
keys_trans a b c p q r joined h k = ground (arith, joined, h, k)

keys_over :
    (a b : ℕ) (p : Bool)
    → (ltb a b || (a == b && not p)) ≡ true
    → (ltb b a || (b == a && p)) ≡ false
keys_over a b p h = ground (arith, h)

keys_same :
    (a b : ℕ) (p q : Bool)
    → (ltb a b || (a == b && not p)) ≡ true
    → (ltb a b || (a == b && q)) ≡ false
    → (a ≡ b) × (p ≡ false) × (q ≡ false)
keys_same a b p q h k = ground (arith, h, k)

lt_suc : (m : ℕ) → ltb 0 (suc m) ≡ true
lt_suc m = ground arith

positive_suc : (m : ℕ) → (k : ℕ) × ((if ltb 0 m then m else 100) ≡ suc k)
positive_suc zero = (99, refl)
positive_suc (suc m) = (m, rw (lt_suc m) refl)

page_size : (n : ℤ) → (k : ℕ) × ((if is_positive n then pos_part n else 100) ≡ suc k)
page_size (pos m) = positive_suc m
page_size (negsuc m) = (99, refl)

-- The database's order of identifiers: of two, one does not come before the other, and not coming
-- before is transitive.
pub record IsIdOrder {B : Type 0} (K : Codec B) : Type 0 where
  pub asymmetric : (x y : String) → K.id_before x y ≡ true → K.id_before y x ≡ false
  pub joined :
      (x y z : String) → K.id_before y x ≡ false → K.id_before z y ≡ false → K.id_before z x ≡ false

module _ {B : Type 0} (P : Platform B) (K : Codec B) (order : IsIdOrder K) where
  total_order : (x y : OutboxEvent B) → not_after K x y ≡ false → not_after K y x ≡ true
  total_order x y h =
      keys_total x.created_at y.created_at (K.id_before y.event_id x.event_id) _
        (order.asymmetric y.event_id x.event_id) h

  trans_order :
      (x y z : OutboxEvent B)
      → not_after K x y ≡ true
      → not_after K y z ≡ true
      → not_after K x z ≡ true
  trans_order x y z h k =
      keys_trans x.created_at y.created_at z.created_at _ _ _
        (order.joined x.event_id y.event_id z.event_id) h k

  sorted : (events : List (OutboxEvent B)) → Ordered (not_after K) (sort_by (not_after K) events)
  sorted events = sort_by-Ordered (not_after K) total_order trans_order events

  listed-Ordered :
      (o : OutboxOffset) (n : ℤ) (events : List (OutboxEvent B))
      → Ordered (not_after K) (listed K o n events)
  unfolding listed
  listed-Ordered o n events = take-Ordered (not_after K) _ _ (sorted _)

  abbrev offset_of : OutboxEvent B → OutboxOffset
  offset_of e = record { last_event_time = e.created_at; last_event_id = e.event_id }

  publish_all-offset :
      (x : OutboxEvent B) (xs : List (OutboxEvent B)) (s : Server B)
      → (publish_all K (x ∷ xs) s).offset ≡ offset_of (last_of (not_after K) x xs)
  unfolding publish_all publish
  publish_all-offset x [] s = refl
  publish_all-offset x (y ∷ ys) s = publish_all-offset y ys (publish K x s)

  -- A round that has listed events ends at the key of the last of them.
  publish_listed-offset :
      (x : OutboxEvent B) (xs : List (OutboxEvent B)) (s : Server B)
      → (publish_listed P K (some (x ∷ xs)) s).offset ≡ offset_of (last_of (not_after K) x xs)
  publish_listed-offset x xs s = settle-offset P K _ ∙ publish_all-offset x xs s

  poll-listed :
      (n : ℤ) (s : Server B)
      → P.fails s.tick ≡ false
      → poll P K n s
        ≡ publish_listed P K
            (some (listed K s.offset n s.tables.db.outbox_events))
            (record s { tick = s.tick + 1 })
  unfolding poll list_outbox_events attempt
  poll-listed n s runs = rw runs refl

  -- No two events have one time and identifiers of which neither comes first.
  abbrev pub IsKeyed : List (OutboxEvent B) → Type 0
  IsKeyed events =
      (x y : OutboxEvent B)
      → Memᴰ x events
      → Memᴰ y events
      → x.created_at ≡ y.created_at
      → K.id_before x.event_id y.event_id ≡ false
      → K.id_before y.event_id x.event_id ≡ false
      → x ≡ y

  listed-mem :
      (o : OutboxOffset) (n : ℤ) (events : List (OutboxEvent B))
      → All (λ x. Memᴰ x events) (listed K o n events)
  unfolding listed
  listed-mem o n events =
      All-take _ _ _ (All-sort_by _ _ _ (All-select _ _ _ (λ x m h. m) events (All-mem events)))

  -- One page: what it holds, and what comes after it.
  abbrev PageOf : List (OutboxEvent B) → OutboxEvent B → Type 0
  PageOf page e =
      (x : OutboxEvent B) × (xs : List (OutboxEvent B)) × (page ≡ x ∷ xs)
      × (Memᴰ e (x ∷ xs) ⊎ (not_after K (last_of (not_after K) x xs) e ≡ true))

  page_of :
      (k : ℕ) (events : List (OutboxEvent B)) (e : OutboxEvent B)
      → Ordered (not_after K) events
      → Memᴰ e events
      → PageOf (take (suc k) events) e
  page_of k [] e h m = absurd (not-nil m)
  page_of k (x ∷ xs) e h m = (x, take k xs, refl, take-or_after (not_after K) k x xs e h m)

  listed-PageOf :
      (o : OutboxOffset) (n : ℤ) (events : List (OutboxEvent B)) (e : OutboxEvent B)
      → Memᴰ e events
      → after_offset K o e ≡ true
      → PageOf (listed K o n events) e
  unfolding listed
  listed-PageOf o n events e m h =
      let (k, q) = page_size n in
      rw q (
        page_of k _ e (sorted _)
          (mem-sort_by (not_after K) e _ (select-mem (after_offset K o) e events m h)))

  -- No event of a page is after the last of it.
  passed :
      (x : OutboxEvent B) (xs : List (OutboxEvent B)) (e : OutboxEvent B)
      → Ordered (not_after K) (x ∷ xs)
      → Memᴰ e (x ∷ xs)
      → after_offset K (offset_of (last_of (not_after K) x xs)) e ≡ false
  passed x xs e ordered i =
      let l = last_of (not_after K) x xs in
      let before =
        mem-All (λ y. not_after K y l ≡ true) e (x ∷ xs) i
          (before_last (not_after K) total_order trans_order x xs ordered) in
      keys_over e.created_at l.created_at (K.id_before l.event_id e.event_id) before

  -- The page against the key of its last event.
  split :
      (events : List (OutboxEvent B)) (x : OutboxEvent B) (xs : List (OutboxEvent B))
      (e : OutboxEvent B)
      → IsKeyed events
      → Ordered (not_after K) (x ∷ xs)
      → All (λ y. Memᴰ y events) (x ∷ xs)
      → Memᴰ e events
      → Memᴰ e (x ∷ xs) ⊎ (not_after K (last_of (not_after K) x xs) e ≡ true)
      → (Memᴰ e (x ∷ xs) × (after_offset K (offset_of (last_of (not_after K) x xs)) e ≡ false))
        ⊎ (¬ Memᴰ e (x ∷ xs) × (after_offset K (offset_of (last_of (not_after K) x xs)) e ≡ true))
  split events x xs e keyed ordered members m (inl i) = inl (i, passed x xs e ordered i)
  split events x xs e keyed ordered members m (inr b) =
      let l = last_of (not_after K) x xs in
      elim (Bool-cases (after_offset K (offset_of l) e)) [
        | inl t ↦ inr (λ i. cc (t, passed x xs e ordered i), t)
        | inr f ↦
            let (same, p, q) = keys_same l.created_at e.created_at _ _ b f in
            inl (
              subst (λ y. Memᴰ y (x ∷ xs))
                  (keyed l e (last-All (not_after K) _ x xs members) m same q p)
                  (last-All (not_after K) (λ y. Memᴰ y (x ∷ xs)) x xs (All-mem (x ∷ xs))),
              f,
            )
      ]

  -- A round of polling whose query does not fail splits the events that were after the offset, in one
  -- of two ways each: an event is listed, and is not after the new offset, so that no round from there
  -- lists it again, or it is not listed, and is after the new offset, so that it is not passed over.
  -- The event is in the outbox at the round, the identifiers are ordered, and no two events have the
  -- same time and place in that order.
  pub poll-page :
      (n : ℤ) (s : Server B) (e : OutboxEvent B)
      → P.fails s.tick ≡ false
      → IsKeyed s.tables.db.outbox_events
      → Memᴰ e s.tables.db.outbox_events
      → after_offset K s.offset e ≡ true
      → (Memᴰ e (listed K s.offset n s.tables.db.outbox_events)
          × (after_offset K (poll P K n s).offset e ≡ false))
        ⊎ (¬ Memᴰ e (listed K s.offset n s.tables.db.outbox_events)
            × (after_offset K (poll P K n s).offset e ≡ true))
  poll-page n s e runs keyed m h =
      let events = s.tables.db.outbox_events in
      let s' = record s { tick = s.tick + 1 } in
      let (x, xs, q, found) = listed-PageOf s.offset n events e m h in
      let ended =
        ap (λ (z : Server B). z.offset) (poll-listed n s runs)
        ∙ ap (λ (l : List (OutboxEvent B)). (publish_listed P K (some l) s').offset) q
        ∙ publish_listed-offset x xs s' in
      subst
        (λ (o : OutboxOffset).
          (Memᴰ e (listed K s.offset n events) × (after_offset K o e ≡ false))
          ⊎ (¬ Memᴰ e (listed K s.offset n events) × (after_offset K o e ≡ true)))
        (sym ended)
        (subst
          (λ (page : List (OutboxEvent B)).
            (Memᴰ e page × (after_offset K (offset_of (last_of (not_after K) x xs)) e ≡ false))
            ⊎ (¬ Memᴰ e page × (after_offset K (offset_of (last_of (not_after K) x xs)) e ≡ true)))
          (sym q)
          (split events x xs e keyed
            (subst (Ordered (not_after K)) q (listed-Ordered s.offset n events))
            (subst (All (λ y. Memᴰ y events)) q (listed-mem s.offset n events)) m found))
