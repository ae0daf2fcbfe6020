-- ===== src/Realtime/Tests.antt =====
-- The theorems at a service with one listener.
use mathlib.Core.List.{Memᴰ}
use mathlib.Core.List.Memᴰ.{cases_cons, not-nil}
use qms.Realtime.Pages.{IsIdOrder, IsKeyed, poll-page}
use qms.Base.{
  Bool, not, ◌&&◌, ◌∙◌, sym, inl, ◌=?◌, ◌≡◌, inr, String, true, false, none, some, List, [], ◌∷◌,
  refl, ◌⊎◌, arith,
}
use qms.Base.Int.{pos}
use qms.Queue.Payload.{Object}
use qms.Queue.Db.{OutboxEvent}
use qms.Queue.Tests.Fixture.{platform, db, differ}
use qms.Http.Messages.{Parsers}
use qms.Realtime.Hub.{Subscription, no_subscription, Client, broadcast}
use qms.Realtime.Polling.{Tables, Codec, Server, text, zero_uuid, poll, listed, after_offset}
use qms.Realtime.Server.{Step, opened, message, delivered, closed, ticked, run}
use qms.Realtime.Entry.{HasOrigin}
use qms.Realtime.Kept.{Scoped}
use qms.Realtime.Scope.{run-Scoped}
use qms.Realtime.Broadcast.{broadcast_foreign, broadcast_unsubscribed}
use qms.Realtime.Retention.{IsOld, poll-IsOld}

abbrev parsers : Parsers
parsers = record {
  is_valid_uuid = λ s. true;
  parse_time = λ s. none;
  parse_int = λ s. none;
  fields = λ s. [];
  text_before = λ a b. false;
}

abbrev codec : Codec Object
codec = record {
  fields_of = λ o. some (λ name. text name);
  marshal_envelope = λ kind payload time. kind;
  id_before = λ a b. a =? "e" && not (b =? "e");
}

abbrev event : OutboxEvent Object
event = record {
  event_id = "e";
  tenant_id = "t";
  type = "ticket.created";
  payload = [];
  created_at = 70;
}

not_both : (p q : Bool) → (p && not q) ≡ true → (q && not p) ≡ false
not_both p q h = ground (arith, h)

joined : (p q r : Bool) → (q && not p) ≡ false → (r && not q) ≡ false → (r && not p) ≡ false
joined p q r h k = ground (arith, h, k)

id_order : IsIdOrder codec
id_order = record {
  asymmetric = λ x y h. not_both (x =? "e") (y =? "e") h;
  joined = λ x y z h k. joined (x =? "e") (y =? "e") (z =? "e") h k;
}

abbrev tables : Tables Object
tables = record {
  db = record db { outbox_events = event ∷ [] };
  realtime_offset = none;
  notification_offset = some 90;
}

abbrev server : Server Object
server = record {
  tables = tables;
  clients = [];
  offset = record { last_event_time = 50; last_event_id = zero_uuid };
  tick = 0;
}

abbrev steps : List (Step Object)
steps =
    opened "" "k"
    ∷ message "id-3" (
        some
          (record { action = "subscribe"; tenant_id = "other"; branch_id = "b"; service_id = "" }))
    ∷ ticked
    ∷ delivered "id-3"
    ∷ closed "id-3"
    ∷ []

run-Scoped_example :
    Scoped
      (HasOrigin platform parsers codec (pos 10) steps server)
      (run platform parsers codec (pos 10) steps server)
run-Scoped_example = run-Scoped platform parsers codec (pos 10) steps server (record { each = tt })

abbrev listener : Subscription → Client
listener sub = record {
  client_id = "l";
  send = [];
  subscription = sub;
  access = record { tenant_id = "t"; branches = []; services = [] };
}

abbrev of_tenant : String → Subscription
of_tenant t = record { tenant_id = t; branch_id = ""; service_id = "" }

broadcast_foreign_example :
    Memᴰ (listener (of_tenant "t")) (broadcast "m" (of_tenant "u") (listener (of_tenant "t") ∷ []))
broadcast_foreign_example =
    broadcast_foreign "m" (of_tenant "u") (listener (of_tenant "t") ∷ []) (listener (of_tenant "t"))
      (Memᴰ.head refl) (differ "t" "" refl) (differ "u" "t" refl)

broadcast_unsubscribed_example :
    Memᴰ
      (record (listener no_subscription) { send = "m" ∷ [] })
      (broadcast "m" (of_tenant "u") (listener no_subscription ∷ []))
broadcast_unsubscribed_example =
    broadcast_unsubscribed "m" (of_tenant "u") (listener no_subscription ∷ [])
      (listener no_subscription) (Memᴰ.head refl) refl (omega arith)

poll-IsOld_example :
    Memᴰ event (poll platform codec (pos 10) server).tables.db.outbox_events
    ⊎ IsOld platform codec event tables.notification_offset
        (poll platform codec (pos 10) server).offset
poll-IsOld_example = poll-IsOld platform codec (pos 10) server event (Memᴰ.head refl)

only : (x : OutboxEvent Object) → Memᴰ x (event ∷ []) → x ≡ event
only x m = elim (cases_cons m) [ inl q ↦ q | inr k ↦ absurd (not-nil k) ]

keyed : IsKeyed platform codec id_order (event ∷ [])
keyed x y m k same p q = only x m ∙ sym (only y k)

poll-page_example :
    (Memᴰ event (listed codec server.offset (pos 10) tables.db.outbox_events)
      × (after_offset codec (poll platform codec (pos 10) server).offset event ≡ false))
    ⊎ (¬ Memᴰ event (listed codec server.offset (pos 10) tables.db.outbox_events)
        × (after_offset codec (poll platform codec (pos 10) server).offset event ≡ true))
poll-page_example =
    poll-page platform codec id_order (pos 10) server event refl keyed (Memᴰ.head refl) refl
