-- ===== src/Realtime/Server.antt =====
-- services/realtime-service/cmd/realtime-service/main.go: the handler of a connection, and the steps
-- of the service, which the goroutines take in any order.
use qms.Base.{◌+◌, String, Option, none, some, List, [], ◌∷◌, ◌=?◌, if◌then◌else◌, maybe}
use qms.Base.Int.{ℤ}
use qms.Queue.Tx.{Platform}
use qms.Queue.Accounts.{Session, find_session, granted_to}
use qms.Http.Messages.{Parsers}
use qms.Realtime.Hub.{
  no_subscription, Client, SubscribeMessage, register, unregister, deliver, parse_subscribe,
}
use qms.Realtime.Sessions.{receive}
use qms.Realtime.Polling.{Tables, Codec, Server, attempt, poll}

module _ {B : Type 0} (P : Platform B) (T : Parsers) where
  abbrev bearer_of : List String → String
  bearer_of (scheme ∷ token ∷ []) = if P.to_lower scheme =? "bearer" then token else ""
  bearer_of _ = ""

  unfoldable pub bearer_token : String → String
  bearer_token header = if header =? "" then "" else bearer_of (T.fields header)

  -- The header `Authorization`, and the parameter `session_id` of the query.
  unfoldable pub session_id_from_request : String → String → String
  session_id_from_request authorization session_id =
      let token = bearer_token authorization in
      if token =? "" then P.trim_space session_id else token

  unfoldable pub get_session : String → Server B → Option (Option Session) × Server B
  get_session id s = attempt P (λ t. (find_session id (P.clock s.tick) t.db, t)) s

  -- `Register` of a client with a new identifier.
  abbrev pub admit : Session → List String → List String → Server B → Server B
  admit session branches services s = record s {
    clients =
        register
          (record {
            client_id = P.uuid s.tick;
            send = [];
            subscription = no_subscription;
            access = record {
              tenant_id = session.tenant_id;
              branches = branches;
              services = services;
            };
          })
          s.clients;
    tick = s.tick + 1;
  }

  -- The two queries of `GetAccess`.
  unfoldable pub with_access : Session → Server B → Server B
  with_access session s =
      let (branches, s') =
        attempt P (λ t. (granted_to session.user_id t.db.user_branch_access, t)) s in
      maybe branches s' λ bs.
        let (services, s'') =
          attempt P (λ t. (granted_to session.user_id t.db.user_service_access, t)) s' in
        maybe services s'' λ vs. admit session bs vs s''

  abbrev pub with_session : Option (Option Session) → Server B → Server B
  with_session none s = s
  with_session (some none) s = s
  with_session (some (some session)) s = with_access session s

  -- A browser connects; without a session its connection is closed.
  unfoldable pub connect : String → String → Server B → Server B
  connect authorization session_id s =
      let id = session_id_from_request authorization session_id in
      if id =? "" then s else (let (found, s') = get_session id s in with_session found s')

-- What happens to the service: a browser connects, sends a message (as the JSON decoder reads it),
-- is sent the first message of its channel, or leaves; the ticker fires; others change the tables.
pub data Step (B : Type 0) : Type 0 where
  opened : String → String → Step B
  message : String → Option SubscribeMessage → Step B
  delivered closed : String → Step B
  ticked : Step B
  elsewhere : Tables B → Step B

module _ {B : Type 0} (P : Platform B) (T : Parsers) (K : Codec B) (batch_size : ℤ) where
  abbrev pub hear : String → Option SubscribeMessage → List Client → List Client
  hear id none clients = clients
  hear id (some msg) clients = receive id msg clients

  unfoldable pub step : Step B → Server B → Server B
  step (opened authorization session_id) s = connect P T authorization session_id s
  step (message id msg) s = record s { clients = hear id (parse_subscribe msg) s.clients }
  step (delivered id) s = record s { clients = deliver id s.clients }
  step (closed id) s = record s { clients = unregister id s.clients }
  step ticked s = poll P K batch_size s
  step (elsewhere t) s = record s { tables = t }

  unfoldable pub run : List (Step B) → Server B → Server B
  unfolding step
  run [] s = s
  run (x ∷ xs) s = run xs (step x s)
