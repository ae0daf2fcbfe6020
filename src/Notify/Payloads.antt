-- ===== src/Notify/Payloads.antt =====
-- services/notification-service/internal/worker/worker.go: payloads, templates and recipients.
use qms.Base.{String, Option, none, some, List, [], ◌∷◌, ◌++◌, ◌=?◌, if◌then◌else◌, maybe}

-- A field of the JSON object, with the text that `fmt.Sprint` gives of one that is no text.
pub data JsonField : Type 0 where
  text printed : String → JsonField

-- `payloadData`
abbrev pub Payload : Type 0
Payload = String → Option JsonField

abbrev pub text_of : Option JsonField → String
text_of none = ""
text_of (some (text s)) = s
text_of (some (printed s)) = ""

abbrev pub printed_of : Option JsonField → String
printed_of none = ""
printed_of (some (text s)) = s
printed_of (some (printed s)) = s

unfoldable pub str : Payload → String → String
str payload key = text_of (payload key)

unfoldable pub optional_str : Payload → String → String
optional_str payload key = printed_of (payload key)

unfoldable pub template_for_event : String → String
template_for_event event_type =
    if event_type =? "ticket.created"
    then "ticket_created"
    else if event_type =? "ticket.called"
    then "ticket_called"
    else if event_type =? "ticket.recalled"
    then "ticket_recalled"
    else ""

abbrev english : String → Option String
english template_id =
    if template_id =? "ticket_created"
    then some "Ticket {ticket_number} created."
    else if template_id =? "ticket_called"
    then some "Ticket {ticket_number} called."
    else if template_id =? "ticket_recalled"
    then some "Ticket {ticket_number} recalled."
    else if template_id =? "ticket_reminder"
    then some "Ticket {ticket_number}: {queue_position} ahead."
    else none

abbrev indonesian : String → String
indonesian template_id =
    if template_id =? "ticket_created"
    then "Tiket {ticket_number} dibuat."
    else if template_id =? "ticket_called"
    then "Tiket {ticket_number} dipanggil."
    else if template_id =? "ticket_recalled"
    then "Tiket {ticket_number} dipanggil ulang."
    else if template_id =? "ticket_reminder"
    then "Tiket {ticket_number}: {queue_position} nomor lagi."
    else ""

unfoldable pub default_template : String → String → String
default_template template_id lang =
    if lang =? "en"
    then maybe (english template_id) (indonesian template_id) (λ body. body)
    else indonesian template_id

-- `replace_all text old new` is `strings.ReplaceAll`.
unfoldable pub render_template : (String → String → String → String) → String → Payload → String
render_template replace_all template payload =
    let a = replace_all template "{ticket_number}" (str payload "ticket_number") in
    let b = replace_all a "{branch_id}" (str payload "branch_id") in
    let c = replace_all b "{service_id}" (str payload "service_id") in
    let d = replace_all c "{counter_id}" (str payload "counter_id") in
    replace_all d "{queue_position}" (optional_str payload "queue_position")

pub record ChannelTarget : Type 0 where
  pub name : String
  pub recipient : String

-- A target, if the payload has a text for it.
abbrev pub target : Payload → String → String → List ChannelTarget
target payload key name =
    let recipient = str payload key in
    if recipient =? "" then [] else record { name = name; recipient = recipient } ∷ []

unfoldable pub pick_channels : Payload → List ChannelTarget
pick_channels payload =
    target payload "phone" "sms"
    ++ (target payload "email" "email"
        ++ (target payload "whatsapp" "whatsapp" ++ target payload "device_token" "push"))
