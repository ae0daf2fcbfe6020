-- ===== src/Realtime/Hub.antt =====
-- services/realtime-service/internal/hub/hub.go. The map of clients is the list of them; a client's
-- channel is the list of the messages in it.
use qms.Base.{
  ℕ, String, Bool, true, not, ◌&&◌, ◌||◌, Option, none, some, List, [], ◌∷◌, ◌++◌, ◌=?◌,
  if◌then◌else◌, ltb, length, select, update,
}

pub record Subscription : Type 0 where
  pub tenant_id : String
  pub branch_id : String
  pub service_id : String

-- `Subscription{}`
abbrev pub no_subscription : Subscription
no_subscription = record { tenant_id = ""; branch_id = ""; service_id = "" }

-- `authSession`, `branches` and `services`, which the goroutine of a client keeps.
pub record Access : Type 0 where
  pub tenant_id : String
  pub branches : List String
  pub services : List String

-- A client, with the variables of the goroutine that reads from its browser.
pub record Client : Type 0 where
  pub client_id : String
  pub send : List String
  pub subscription : Subscription
  pub access : Access

pub record SubscribeMessage : Type 0 where
  pub action : String
  pub tenant_id : String
  pub branch_id : String
  pub service_id : String

-- The size of the channel `Send`.
abbrev pub capacity : ℕ
capacity = 16

abbrev pub is_client : String → Client → Bool
is_client id c = c.client_id =? id

unfoldable pub unregister : String → List Client → List Client
unregister id clients = select (λ (c : Client). not (is_client id c)) clients

unfoldable pub register : Client → List Client → List Client
register client clients = client ∷ unregister client.client_id clients

abbrev pub update_subscription : Subscription → Client → Client
update_subscription sub client = record client { subscription = sub }

-- The test of one field.
abbrev pub admits : String → String → Bool
admits wanted actual = if wanted =? "" then true else actual =? wanted

-- `match`
unfoldable pub match_ : Subscription → Subscription → Bool
match_ sub meta =
    admits sub.tenant_id meta.tenant_id
    && (admits sub.branch_id meta.branch_id && admits sub.service_id meta.service_id)

-- The `select` of `Broadcast`: a message for a full channel is dropped.
unfoldable pub offer : String → Client → Client
offer payload client =
    if ltb (length client.send) capacity
    then record client { send = client.send ++ (payload ∷ []) }
    else client

unfoldable pub broadcast : String → Subscription → List Client → List Client
broadcast payload meta clients =
    update (λ (c : Client). match_ c.subscription meta) (offer payload) clients

-- The goroutine that writes to the browser takes the first message.
abbrev pub taken : List String → List String
taken [] = []
taken (m ∷ ms) = ms

unfoldable pub deliver : String → List Client → List Client
deliver id clients =
    update (is_client id) (λ (c : Client). record c { send = taken c.send }) clients

-- `ParseSubscribe`, after the JSON decoder.
unfoldable pub parse_subscribe : Option SubscribeMessage → Option SubscribeMessage
parse_subscribe none = none
parse_subscribe (some msg) =
    if msg.action =? "subscribe" || msg.action =? "unsubscribe" then some msg else none
