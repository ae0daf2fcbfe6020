-- ===== src/Realtime/Sessions.antt =====
-- services/realtime-service/cmd/realtime-service/main.go: the session of one browser.
use qms.Base.{
  String, Bool, true, false, ◌&&◌, Option, none, some, List, [], ◌∷◌, ◌=?◌, if◌then◌else◌, any,
}
use qms.Realtime.Hub.{
  Subscription, no_subscription, Client, SubscribeMessage, is_client, update_subscription,
}

abbrev pub contains : List String → String → Bool
contains values value = any (λ (item : String). item =? value) values

-- A list that is not empty must hold the id.
abbrev allows : List String → String → Bool
allows [] id = true
allows (x ∷ xs) id = if id =? "" then false else contains (x ∷ xs) id

unfoldable pub is_allowed : String → String → List String → List String → Bool
is_allowed branch_id service_id branches services =
    allows branches branch_id && allows services service_id

-- The subscription that a message asks for; `none` when the session is closed instead.
unfoldable pub requested : Client → SubscribeMessage → Option Subscription
requested c msg =
    if msg.action =? "unsubscribe"
    then some no_subscription
    else if is_allowed msg.branch_id msg.service_id c.access.branches c.access.services
    then some (record {
      tenant_id = c.access.tenant_id;
      branch_id = msg.branch_id;
      service_id = msg.service_id;
    })
    else none

-- The body of the loop of a session: a closed session has its client unregistered.
abbrev pub after_request : Client → Option Subscription → List Client → List Client
after_request c none rest = rest
after_request c (some sub) rest = update_subscription sub c ∷ rest

unfoldable pub receive : String → SubscribeMessage → List Client → List Client
receive id msg [] = []
receive id msg (c ∷ cs) =
    let rest = receive id msg cs in
    if is_client id c then after_request c (requested c msg) rest else c ∷ rest
