-- ===== src/Auth/Tests.antt =====
-- The theorems at the user of the queue's fixture.
use qms.Base.{
  ℕ, ◌+◌, String, Bool, ◌&&◌, ◌=?◌, true, false, Option, none, some, List, [], ◌∷◌, ◌≡◌, refl,
  arith, ◌++◌, if◌then◌else◌, find, any, maybe, select,
}
use qms.Base.Int.{pos}
use qms.Queue.Payload.{Object}
use qms.Queue.Db.{SessionRow, UserRow, MappingRow}
use qms.Queue.Accounts.{find_session, granted_to}
use qms.Queue.Decimal.{decimal}
use qms.Queue.Tx
use qms.Queue.Tx.{State}
use qms.Queue.Tests.Fixture.{platform, db, start_state, differ}
use qms.Http.Messages
use qms.Http.Messages.{Parsers, Decoded}
use qms.Http.Web.{go}
use qms.Http.Auth.{is_public_endpoint, session_id_from_request, bearer_token, authenticate}
use qms.Http.Tests.Fixture.{parsers, request}
use qms.Auth.Run
use qms.Auth.Run.{value, ended}
use qms.Auth.Rows.{
  Error, User, LoginInput, LoginResult, Passwords, Session, find_mapped, insert_user,
  insert_mapping, is_mapping, find_login, with_role, insert_session,
}
use qms.Auth.Mapped.{insert_mapped}
use qms.Auth.Tokens.{Claims, Codecs}
use qms.Auth.Store.{login, create_mapped_user, sso_login, eight_hours}
use qms.Auth.SignIn.{row_of}
use qms.Auth.Sessions.{HasKeyedUsers, session_of, login-find_session}
use qms.Auth.Bearer.{info_of, login-authenticate}
use qms.Auth.Accounts.{sso_login-again}
use qms.Auth.Refusals.{LoginOutcome, login_guarded, sso_login_inactive}
use qms.Auth.Handlers.{HttpRequest, Environment}

abbrev passwords : Passwords
passwords = record { lower = λ s. s; compare_hash_and_password = λ hash p. hash =? p }

abbrev input : LoginInput
input = record { tenant_id = "t"; email = "u@t"; password = "secret"; branch_id = "b" }

abbrev result : LoginResult
result = record {
  user = record {
    user_id = "u";
    tenant_id = "t";
    role_name = "agent";
    email = "u@t";
    created = some 5;
  };
  session = record { session_id = "id-4"; user_id = "u"; expires_at = 28_800_000_001_003 };
  branches = "b" ∷ [];
  services = [];
}

abbrev after : State Object
after = record {
  db = record db {
    sessions =
        record { session_id = "k"; user_id = "u"; expires_at = 5000 }
        ∷ record { session_id = "id-4"; user_id = "u"; expires_at = 28_800_000_001_003 }
        ∷ [];
  };
  tick = 6;
}

signed_in : login platform passwords input start_state ≡ (value result, after)
unfolding login find_login with_role insert_session find maybe any select Tx.statement Run.◌>>=◌
    Run.ask Tx.query Run.pure granted_to Tx.now Tx.new_uuid decimal
signed_in = refl

keyed : HasKeyedUsers db
unfolding find
keyed = (refl, tt)

login-find_session_example :
    (28_800_000_001_003 ≡ platform.clock 3 + eight_hours)
    × (◌≡◌ {A = String} "t" "t")
    × (find_session "id-4" 2000 after.db ≡ some (session_of result))
login-find_session_example =
    login-find_session platform passwords input start_state result after 2000 keyed signed_in
      (omega arith)

abbrev calling : Messages.HttpRequest
calling = request "POST" "/api/tickets/1/actions/cancel" "id-4" "n1"

is_private : is_public_endpoint calling ≡ false
unfolding is_public_endpoint
is_private = refl

names_session : session_id_from_request platform parsers calling ≡ "id-4"
unfolding session_id_from_request bearer_token
names_session = refl

login-authenticate_example :
    authenticate platform parsers calling after
    ≡ (go (some (info_of result)), record after { tick = 9 })
login-authenticate_example =
    login-authenticate platform (λ n. refl) parsers calling passwords input start_state result after
      keyed signed_in is_private names_session (differ "id-4" "" refl) (omega arith)

login_guarded_example : LoginOutcome platform passwords input db after.db (value result)
login_guarded_example =
    login_guarded platform passwords input start_state (value result) after signed_in

abbrev newcomer : Option ℕ → User
newcomer created = record {
  user_id = "id-3";
  tenant_id = "t";
  role_name = "agent";
  email = "x@t";
  created = created;
}

abbrev newcomer_row : Bool → UserRow
newcomer_row active = record {
  user_id = "id-3";
  tenant_id = "t";
  role_id = "agent";
  email = "x@t";
  password_hash = "SSO";
  active = active;
  created_at = 1001;
}

abbrev newcomer_mapping : MappingRow
newcomer_mapping = record {
  mapping_id = "id-5";
  tenant_id = "t";
  provider = "jwt";
  subject = "x";
  user_id = "id-3";
}

abbrev session : String → ℕ → Session
session id time = record { session_id = id; user_id = "id-3"; expires_at = time + eight_hours }

abbrev sso_result : Option ℕ → String → ℕ → LoginResult
sso_result created id time = record {
  user = newcomer created;
  session = session id time;
  branches = [];
  services = [];
}

-- The fixture's tables after sign-ins of the newcomer.
abbrev known : Bool → List SessionRow → ℕ → State Object
known active sessions n = record {
  db = record db {
    users = db.users ++ newcomer_row active ∷ [];
    user_idp_mappings = newcomer_mapping ∷ [];
    sessions = db.sessions ++ sessions;
  };
  tick = n;
}

abbrev after_first : State Object
after_first = known true (row_of (session "id-11" 1010) ∷ []) 13

abbrev after_second : State Object
after_second = known true (row_of (session "id-11" 1010) ∷ row_of (session "id-17" 1016) ∷ []) 19

first_time :
    sso_login platform "t" "jwt" "x" "x@t" start_state
    ≡ (value (sso_result none "id-11" 1010), after_first)
unfolding sso_login find_mapped Run.◌>>=◌ Run.ask Tx.query Tx.statement maybe find with_role
    Run.pure Tx.now Tx.new_uuid insert_session any decimal granted_to select Run.submit Tx.transact
    insert_mapped Tx.◌>>=◌ Tx.pure insert_user insert_mapping create_mapped_user
first_time = refl

second_time :
    sso_login platform "t" "jwt" "x" "" after_first
    ≡ (value (sso_result (some 1001) "id-17" 1016), after_second)
unfolding sso_login find_mapped Run.◌>>=◌ Run.ask Tx.query Tx.statement maybe find with_role
    Run.pure Tx.now Tx.new_uuid insert_session any decimal granted_to select
second_time = refl

sso_login-again_example :
    (◌≡◌ {A = String} "id-3" "id-3") × (after_second.db.users ≡ after_first.db.users)
sso_login-again_example =
    sso_login-again platform "t" "jwt" "x" "x@t" "" start_state (sso_result none "id-11" 1010)
      after_first (sso_result (some 1001) "id-17" 1016) after_second first_time second_time

is_known :
    find (is_mapping "t" "jwt" "x") (known false [] 0).db.user_idp_mappings ≡ some newcomer_mapping
unfolding find
is_known = refl

is_inactive :
    find (λ (u : UserRow). u.user_id =? "id-3" && u.active) (known false [] 0).db.users ≡ none
unfolding find
is_inactive = refl

sso_login_inactive_example :
    (e : Error) × (s' : State Object) × (sso_login platform "t" "jwt" "x" "x@t" (known false [] 0)
      ≡ (ended e, s'))
    × (s'.db ≡ (known false [] 0).db)
sso_login_inactive_example =
    sso_login_inactive platform "t" "jwt" "x" "x@t" newcomer_mapping (known false [] 0) is_known
      is_inactive

abbrev claims : Claims
claims = record { subject = "x"; email = "x@t"; issuer = "i"; expires = pos 1000 }

abbrev codecs : Codecs
codecs = record {
  decode_raw_url = λ s. some s;
  decode_standard = λ s. none;
  hmac_sha256 = λ key bytes. bytes;
  unmarshal_claims = λ s. some claims;
  xml_tokens = λ s. [];
  equal_fold = λ a b. a =? b;
  trim_space = λ s. s;
}

-- The `HMAC` of these codecs is the text itself, which has a dot: a decoder that restores it.
abbrev with_dots : Codecs
with_dots = record codecs { decode_raw_url = λ s. if s =? "s" then some "h.p" else some s }

abbrev environment : Environment
environment = record {
  jwt_secret = "key";
  jwt_issuer = "i";
  is_valid_uuid = λ s. true;
  fields = λ s. [];
  rfc3339 = decimal;
}

abbrev decoded : {A : Type 0} → A → Decoded A
decoded v = record { value = v; is_ok = true }

abbrev jwt_request : HttpRequest
jwt_request = record {
  method = "POST";
  path = "/api/auth/sso/jwt";
  header = λ name. "";
  body = record {
    as_login = decoded (record { tenant_id = ""; email = ""; password = ""; branch_id = "" });
    as_sso = decoded (record { tenant_id = ""; provider = ""; subject = ""; email = "" });
    as_jwt = decoded (record { tenant_id = "t"; token = "h.p.s" });
    as_saml = decoded (record { tenant_id = ""; assertion = "" });
  };
}

abbrev begun : State Object
begun = known true [] 12

abbrev jwt_result : LoginResult
jwt_result = sso_result (some 1001) "id-17" 1016
