-- ===== src/Http/Tests/Fixture.antt =====
-- Requests to the branch of the queue's fixture.
use qms.Base.{String, true, false, none, [], ◌=?◌, if◌then◌else◌}
use qms.Http.Messages.{HttpRequest, Parsers, Body, Decoded}

abbrev pub parsers : Parsers
parsers = record {
  is_valid_uuid = λ s. true;
  parse_time = λ s. none;
  parse_int = λ s. none;
  fields = λ s. [];
  text_before = λ a b. false;
}

abbrev pub decoded : {A : Type 0} → A → Decoded A
decoded value = record { value = value; is_ok = true }

abbrev pub body : String → Body
body request_id = record {
  as_create = decoded (record {
    request_id = request_id;
    tenant_id = "t";
    branch_id = "b";
    service_id = "s";
    area_id = "";
    channel = "";
    priority_class = "";
    phone = "";
  });
  as_call_next = decoded (record {
    request_id = request_id;
    tenant_id = "t";
    branch_id = "b";
    service_id = "s";
    counter_id = "c";
  });
  as_check_in =
      decoded (record {
        request_id = request_id;
        tenant_id = "t";
        branch_id = "b";
        appointment_id = "p";
      });
  as_counter_status = decoded (record { tenant_id = "t"; branch_id = "b"; status = "break" });
  as_action =
      decoded
        (record { request_id = request_id; tenant_id = "t"; branch_id = "b"; counter_id = "c" });
  as_transfer = decoded (record {
    request_id = request_id;
    tenant_id = "t";
    branch_id = "b";
    counter_id = "c";
    to_service_id = "v";
    reason = "";
  });
}

abbrev pub request : String → String → String → String → HttpRequest
request method path session request_id = record {
  method = method;
  path = path;
  query = λ name. "";
  header = λ name. if name =? "X-Session-ID" then session else "";
  body = body request_id;
}
