-- ===== src/Realtime/Kept.antt =====
-- services/realtime-service: what listening and polling keep of the clients.
use qms.Base.{
  ℕ, ◌+◌, ◌≤◌, String, Bool, true, false, Option, none, some, List, [], ◌∷◌, ◌++◌, ◌=?◌, ◌≡◌, refl,
  ◌==◌, inl, inr, if◌then◌else◌, maybe, All, length, arith, All-update, Bool-cases, ltb,
}
use qms.Base.Int.{ℤ}
use qms.Queue.Db.{OutboxEvent}
use qms.Queue.Tx.{Platform}
use qms.Realtime.Hub.{
  Subscription, no_subscription, Access, Client, SubscribeMessage, is_client, offer, broadcast,
  taken,
}
use qms.Realtime.Sessions.{is_allowed, requested, receive, after_request}
use qms.Realtime.Polling.{
  OutboxOffset, Tables, Codec, Server, attempt, publish, publish_all, settle, poll, update_offset,
  get_notification_offset, cleanup_outbox, clean, cleanup_before, publish_listed,
  list_outbox_events,
}
use qms.Realtime.Entry.{IsScoped, is_allowed-MayName}

length_snoc : (m : String) (ms : List String) → length (ms ++ (m ∷ [])) ≡ length ms + 1
length_snoc m [] = refl
length_snoc m (x ∷ xs) = omega (arith, length_snoc m xs)

pub length-taken : (ms : List String) → length (taken ms) ≤ length ms
length-taken [] = omega arith
length-taken (m ∷ ms) = omega arith

module _ (R : Access → Type 0) where
  offer-IsScoped : (m : String) (c : Client) → IsScoped R c → IsScoped R (offer m c)
  unfolding offer
  offer-IsScoped m c (few, known, scope) = elim (Bool-cases (ltb (length c.send) 16)) [
    | inl t ↦ rw t (ground (arith, length_snoc m c.send, t), known, scope)
    | inr t ↦ rw t (few, known, scope)
  ]

  -- A subscription that the client may be given.
  abbrev MayHave : Client → Option Subscription → Type 0
  MayHave c none = Unit {0}
  MayHave c (some sub) = IsScoped R (record c { subscription = sub })

  if-MayHave :
      (c : Client) (b : Bool) (x y : Option Subscription)
      → (b ≡ true → MayHave c x)
      → (b ≡ false → MayHave c y)
      → MayHave c (if b then x else y)
  if-MayHave c true x y h k = h refl
  if-MayHave c false x y h k = k refl

  requested-MayHave :
      (c : Client) (msg : SubscribeMessage) → IsScoped R c → MayHave c (requested c msg)
  unfolding requested
  requested-MayHave c msg h =
      if-MayHave c (msg.action =? "unsubscribe") (some no_subscription) _
        (λ left. (h.0, h.1, inl refl))
        λ stays.
          if-MayHave c (is_allowed msg.branch_id msg.service_id c.access.branches c.access.services)
            (some (record {
              tenant_id = c.access.tenant_id;
              branch_id = msg.branch_id;
              service_id = msg.service_id;
            }))
            none
            (λ allowed. (
              h.0,
              h.1,
              let (b, v) =
                    is_allowed-MayName msg.branch_id msg.service_id c.access.branches
                      c.access.services allowed in
                  inr (refl, b, v),
            ))
            (λ refused. tt)

  after_request-IsScoped :
      (c : Client) (o : Option Subscription) (rest : List Client)
      → MayHave c o
      → All (IsScoped R) rest
      → All (IsScoped R) (after_request c o rest)
  after_request-IsScoped c none rest m h = h
  after_request-IsScoped c (some sub) rest m h = (m, h)

  pub receive-IsScoped :
      (id : String) (msg : SubscribeMessage) (clients : List Client)
      → All (IsScoped R) clients
      → All (IsScoped R) (receive id msg clients)
  unfolding receive
  receive-IsScoped id msg [] h = h
  receive-IsScoped id msg (c ∷ cs) h = elim (Bool-cases (is_client id c)) [
    | inl t ↦ rw t (
        after_request-IsScoped c _ _ (requested-MayHave c msg h.0) (receive-IsScoped id msg cs h.1))
    | inr t ↦ rw t (h.0, receive-IsScoped id msg cs h.1)
  ]

  -- Every client of the hub is scoped.
  pub record Scoped {B : Type 0} (s : Server B) : Type 0 where
    pub each : All (IsScoped R) s.clients

  publish_all-Scoped :
      {B : Type 0} (K : Codec B) (events : List (OutboxEvent B)) (s : Server B)
      → Scoped s
      → Scoped (publish_all K events s)
  unfolding publish_all publish broadcast
  publish_all-Scoped K [] s h = h
  publish_all-Scoped K (e ∷ es) s h =
      publish_all-Scoped K es _
        (record { each = All-update _ _ (IsScoped R) s.clients (offer-IsScoped _) h.each })

  module _ {B : Type 0} (P : Platform B) where
    pub attempt-Scoped :
        {A : Type 0} (f : Tables B → A × Tables B) (s : Server B)
        → Scoped s
        → Scoped (attempt P f s).1
    unfolding attempt
    attempt-Scoped f s h = record {
      each = elim (Bool-cases (P.fails s.tick)) [ inl t ↦ rw t h.each | inr t ↦ rw t h.each ];
    }

    maybe-Scoped :
        {A : Type 0} (o : Option A) (s : Server B) (k : A → Server B)
        → Scoped s
        → ((a : A) → Scoped (k a))
        → Scoped (maybe o s k)
    unfolding maybe
    maybe-Scoped none s k h hk = h
    maybe-Scoped (some a) s k h hk = hk a

    clean-Scoped : (K : Codec B) (o : Option ℕ) (s : Server B) → Scoped s → Scoped (clean P K o s)
    unfolding cleanup_outbox
    clean-Scoped K none s h = h
    clean-Scoped K (some n) s h = elim (Bool-cases (n == 0)) [
      | inl t ↦ rw t h
      | inr t ↦ rw t (elim (Bool-cases (cleanup_before n s.offset == 0)) [
        | inl z ↦ rw z h
        | inr z ↦ rw z (attempt-Scoped _ s h)
      ])
    ]

    update_offset-Scoped :
        (K : Codec B) (o : OutboxOffset) (s : Server B)
        → Scoped s
        → Scoped (update_offset P K o s).1
    unfolding update_offset
    update_offset-Scoped K o s h = attempt-Scoped _ s h

    get_notification_offset-Scoped :
        (K : Codec B) (s : Server B) → Scoped s → Scoped (get_notification_offset P K s).1
    unfolding get_notification_offset
    get_notification_offset-Scoped K s h = attempt-Scoped _ s h

    settle-Scoped : (K : Codec B) (s : Server B) → Scoped s → Scoped (settle P K s)
    unfolding settle
    settle-Scoped K s h =
        let s' = (update_offset P K s.offset s).1 in
        clean-Scoped K (get_notification_offset P K s').0 _
          (get_notification_offset-Scoped K s' (update_offset-Scoped K s.offset s h))

    publish_listed-Scoped :
        (K : Codec B) (o : Option (List (OutboxEvent B))) (s : Server B)
        → Scoped s
        → Scoped (publish_listed P K o s)
    publish_listed-Scoped K none s h = h
    publish_listed-Scoped K (some []) s h = h
    publish_listed-Scoped K (some (e ∷ es)) s h =
        settle-Scoped K _ (publish_all-Scoped K (e ∷ es) s h)

    pub poll-Scoped : (K : Codec B) (n : ℤ) (s : Server B) → Scoped s → Scoped (poll P K n s)
    unfolding poll list_outbox_events
    poll-Scoped K n s h = publish_listed-Scoped K _ _ (attempt-Scoped _ s h)
