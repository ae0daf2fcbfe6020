-- ===== src/Realtime/Broadcast.antt =====
-- services/realtime-service/internal/hub/hub.go: what `Broadcast` does to one client.
use mathlib.Core.List.{Memᴰ}
use qms.Base.{
  ℕ, ◌<◌, String, Bool, true, false, List, [], ◌∷◌, ◌++◌, ◌≡◌, ◌≢◌, refl, ap, if◌then◌else◌, length,
  eq_iff, arith, mem-update, subst, ltb,
}
use qms.Realtime.Hub.{Subscription, no_subscription, Client, match_, offer, broadcast}

match_foreign :
    (sub meta : Subscription)
    → sub.tenant_id ≢ ""
    → meta.tenant_id ≢ sub.tenant_id
    → match_ sub meta ≡ false
unfolding match_
match_foreign sub meta real other =
    ground (arith, eq_iff sub.tenant_id "", eq_iff meta.tenant_id sub.tenant_id, real, other)

-- A client with a subscription to a tenant is not touched by an event of another one.
pub broadcast_foreign :
    (payload : String) (meta : Subscription) (clients : List Client) (c : Client)
    → Memᴰ c clients
    → c.subscription.tenant_id ≢ ""
    → meta.tenant_id ≢ c.subscription.tenant_id
    → Memᴰ c (broadcast payload meta clients)
unfolding broadcast
broadcast_foreign payload meta clients c m real other =
    subst (λ (b : Bool). Memᴰ (if b then offer payload c else c) (broadcast payload meta clients))
      (match_foreign c.subscription meta real other) (mem-update _ _ c clients m)

fits : (n : ℕ) → n < 16 → ltb n 16 ≡ true
fits n h = ground arith

offer_room :
    (payload : String) (c : Client)
    → length c.send < 16
    → offer payload c ≡ record c { send = c.send ++ (payload ∷ []) }
unfolding offer
offer_room payload c room = rw (fits (length c.send) room) refl

-- A client without a subscription, whose channel is not full, is sent the events of every tenant.
pub broadcast_unsubscribed :
    (payload : String) (meta : Subscription) (clients : List Client) (c : Client)
    → Memᴰ c clients
    → c.subscription ≡ no_subscription
    → length c.send < 16
    → Memᴰ (record c { send = c.send ++ (payload ∷ []) }) (broadcast payload meta clients)
unfolding broadcast match_
broadcast_unsubscribed payload meta clients c m nothing room =
    subst (λ (d : Client). Memᴰ d (broadcast payload meta clients)) (offer_room payload c room)
      (subst
        (λ (b : Bool). Memᴰ (if b then offer payload c else c) (broadcast payload meta clients))
        (ap (λ (x : Subscription). match_ x meta) nothing) (mem-update _ _ c clients m))
