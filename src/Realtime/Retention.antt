-- ===== src/Realtime/Retention.antt =====
-- services/realtime-service/cmd/realtime-service/main.go: what a round of polling deletes.
use mathlib.Core.List.{Memᴰ}
use qms.Base.{
  ℕ, ◌<◌, true, not, Option, none, some, List, [], ◌∷◌, ◌≡◌, refl, sym, ap, subst, ◌∙◌, ◌==◌, ◌⊎◌,
  inl, inr, maybe, ltb, select-mem, Bool-cases, arith,
}
use qms.Base.Int.{ℤ}
use qms.Queue.Db.{OutboxEvent}
use qms.Queue.Tx.{Platform}
use qms.Realtime.Polling.{
  OutboxOffset, Tables, Codec, Server, attempt, publish, publish_all, settle, poll, update_offset,
  get_notification_offset, cleanup_outbox, clean, cleanup_before, publish_listed, listed,
  list_outbox_events,
}

-- The outbox, the offset of the notifications and the service's own are as they were.
record Untouched {B : Type 0} (s s' : Server B) : Type 0 where
  outbox : s'.tables.db.outbox_events ≡ s.tables.db.outbox_events
  notified : s'.tables.notification_offset ≡ s.tables.notification_offset
  offset : s'.offset ≡ s.offset

module _ {B : Type 0} (P : Platform B) (K : Codec B) where
  attempt-Untouched :
      {A : Type 0} (f : Tables B → A × Tables B) (s : Server B)
      → ((t : Tables B) → (f t).1.db.outbox_events ≡ t.db.outbox_events)
      → ((t : Tables B) → (f t).1.notification_offset ≡ t.notification_offset)
      → Untouched s (attempt P f s).1
  unfolding attempt
  attempt-Untouched f s h k = elim (Bool-cases (P.fails s.tick)) [
    | inl t ↦ record { outbox = rw t refl; notified = rw t refl; offset = rw t refl }
    | inr t ↦ record {
      outbox = rw t (h s.tables);
      notified = rw t (k s.tables);
      offset = rw t refl;
    }
  ]

  -- The event is deleted for being older than both offsets.
  abbrev pub IsOld : OutboxEvent B → Option ℕ → OutboxOffset → Type 0
  IsOld e o offset =
      (n : ℕ) × (o ≡ some n) × (e.created_at < n) × (e.created_at < offset.last_event_time)

  older :
      (e : OutboxEvent B) (n : ℕ) (o : OutboxOffset)
      → ltb e.created_at (cleanup_before n o) ≡ true
      → (e.created_at < n) × (e.created_at < o.last_event_time)
  older e n o h = ground (arith, h)

  cleanup_keeps :
      (before : ℕ) (s : Server B) (e : OutboxEvent B)
      → Memᴰ e s.tables.db.outbox_events
      → Memᴰ e (cleanup_outbox P K before s).1.tables.db.outbox_events
        ⊎ (ltb e.created_at before ≡ true)
  unfolding cleanup_outbox attempt
  cleanup_keeps before s e m = elim (Bool-cases (ltb e.created_at before)) [
    | inl t ↦ inr t
    | inr t ↦ inl (elim (Bool-cases (before == 0)) [
      | inl z ↦ rw z m
      | inr z ↦ rw z (elim (Bool-cases (P.fails s.tick)) [
        | inl x ↦ rw x m
        | inr x ↦ rw x (select-mem _ e _ m (ap not t))
      ])
    ])
  ]

  clean_keeps :
      (o : Option ℕ) (s : Server B) (e : OutboxEvent B)
      → Memᴰ e s.tables.db.outbox_events
      → Memᴰ e (clean P K o s).tables.db.outbox_events ⊎ IsOld e o s.offset
  clean_keeps none s e m = inl m
  clean_keeps (some n) s e m = elim (Bool-cases (n == 0)) [
    | inl z ↦ rw z (inl m)
    | inr z ↦ rw z (elim (cleanup_keeps (cleanup_before n s.offset) s e m) [
      | inl k ↦ inl k
      | inr t ↦ inr (n, refl, (older e n s.offset t).0, (older e n s.offset t).1)
    ])
  ]

  cleanup_outbox-offset :
      (before : ℕ) (s : Server B) → (cleanup_outbox P K before s).1.offset ≡ s.offset
  unfolding cleanup_outbox attempt
  cleanup_outbox-offset before s = elim (Bool-cases (before == 0)) [
    | inl z ↦ rw z refl
    | inr z ↦ rw z (elim (Bool-cases (P.fails s.tick)) [ inl x ↦ rw x refl | inr x ↦ rw x refl ])
  ]

  clean-offset : (o : Option ℕ) (s : Server B) → (clean P K o s).offset ≡ s.offset
  clean-offset none s = refl
  clean-offset (some n) s = elim (Bool-cases (n == 0)) [
    | inl z ↦ rw z refl
    | inr z ↦ rw z (cleanup_outbox-offset _ s)
  ]

  update_offset-Untouched :
      (o : OutboxOffset) (s : Server B) → Untouched s (update_offset P K o s).1
  unfolding update_offset
  update_offset-Untouched o s = attempt-Untouched _ s (λ t. refl) (λ t. refl)

  get_notification_offset-Untouched : (s : Server B) → Untouched s (get_notification_offset P K s).1
  unfolding get_notification_offset
  get_notification_offset-Untouched s = attempt-Untouched _ s (λ t. refl) (λ t. refl)

  stored : (o : Option ℕ) (n : ℕ) → some (maybe o 0 (λ m. m)) ≡ some n → 0 < n → o ≡ some n
  unfolding maybe
  stored none n h positive = ground (arith, h, positive)
  stored (some m) n h positive = h

  -- A notification offset that is answered, and not the zero time, is the one that is stored.
  get_notification_offset-stored :
      (s : Server B) (n : ℕ)
      → (get_notification_offset P K s).0 ≡ some n
      → 0 < n
      → s.tables.notification_offset ≡ some n
  unfolding get_notification_offset attempt maybe
  get_notification_offset-stored s n h positive = elim (Bool-cases (P.fails s.tick)) [
    | inl t ↦ absurd (cc (rw t at h))
    | inr t ↦ stored s.tables.notification_offset n (rw t at h) positive
  ]

  settle_keeps :
      (s : Server B) (e : OutboxEvent B)
      → Memᴰ e s.tables.db.outbox_events
      → Memᴰ e (settle P K s).tables.db.outbox_events
        ⊎ IsOld e s.tables.notification_offset (settle P K s).offset
  unfolding settle
  settle_keeps s e m =
      let s' = (update_offset P K s.offset s).1 in
      let (o, s'') = get_notification_offset P K s' in
      let u' = update_offset-Untouched s.offset s in
      let u'' = get_notification_offset-Untouched s' in
      elim (clean_keeps o s'' e (subst (Memᴰ e) (sym (u''.outbox ∙ u'.outbox)) m)) [
        | inl k ↦ inl k
        | inr (n, q, a, b) ↦ inr (
          n,
          sym u'.notified ∙ get_notification_offset-stored s' n q (omega (arith, a)),
          a,
          subst (λ (x : OutboxOffset). e.created_at < x.last_event_time) (sym (clean-offset o s''))
              b,
        )
      ]

  pub settle-offset : (s : Server B) → (settle P K s).offset ≡ s.offset
  unfolding settle
  settle-offset s =
      let s' = (update_offset P K s.offset s).1 in
      let (o, s'') = get_notification_offset P K s' in
      clean-offset o s''
      ∙ (get_notification_offset-Untouched s').offset
      ∙ (update_offset-Untouched s.offset s).offset

  publish_all-tables :
      (events : List (OutboxEvent B)) (s : Server B) → (publish_all K events s).tables ≡ s.tables
  unfolding publish_all publish
  publish_all-tables [] s = refl
  publish_all-tables (x ∷ xs) s = publish_all-tables xs (publish K x s)

  publish_listed_keeps :
      (o : Option (List (OutboxEvent B))) (s : Server B) (e : OutboxEvent B)
      → Memᴰ e s.tables.db.outbox_events
      → Memᴰ e (publish_listed P K o s).tables.db.outbox_events
        ⊎ IsOld e s.tables.notification_offset (publish_listed P K o s).offset
  publish_listed_keeps none s e m = inl m
  publish_listed_keeps (some []) s e m = inl m
  publish_listed_keeps (some (x ∷ xs)) s e m =
      let same = publish_all-tables (x ∷ xs) s in
      subst
        (λ (t : Tables B).
          let s' = settle P K (publish_all K (x ∷ xs) s) in
          Memᴰ e s'.tables.db.outbox_events ⊎ IsOld e t.notification_offset s'.offset)
        same
        (settle_keeps (publish_all K (x ∷ xs) s) e
          (subst (λ (t : Tables B). Memᴰ e t.db.outbox_events) (sym same) m))

  -- An event of the outbox outlives a round of polling, whatever fails, unless it was created before
  -- the offset that the notification service has stored and before the one that the round ends at.
  pub poll-IsOld :
      (batch_size : ℤ) (s : Server B) (e : OutboxEvent B)
      → Memᴰ e s.tables.db.outbox_events
      → Memᴰ e (poll P K batch_size s).tables.db.outbox_events
        ⊎ IsOld e s.tables.notification_offset (poll P K batch_size s).offset
  unfolding poll list_outbox_events
  poll-IsOld batch_size s e m =
      let u =
        attempt-Untouched (λ t. (listed K s.offset batch_size t.db.outbox_events, t)) s (λ t. refl)
          (λ t. refl) in
      let (o, s') = list_outbox_events P K s.offset batch_size s in
      subst
        (λ (x : Option ℕ).
          let s'' = publish_listed P K o s' in
          Memᴰ e s''.tables.db.outbox_events ⊎ IsOld e x s''.offset)
        u.notified (publish_listed_keeps o s' e (subst (Memᴰ e) (sym u.outbox) m))
