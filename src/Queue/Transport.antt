-- ===== src/Queue/Transport.antt =====
-- sendMutation of apps/mobile/src/sync/queue.ts, and apiFetch with `ApiError` of
-- apps/mobile/src/lib/api.ts.
use noorix_fin.Common.{
  ℕ, String, Bool, not, ◌&&◌, Option, some, none, ◌==◌, leb, ltb, if◌then◌else◌,
}
use noorix_fin.Common.Text.{Text, codes}
use noorix_fin.Common.Outcome.{Outcome, ok, err}
use noorix_fin.Queue.{
  MutationKind, QueuedMutation, Uuid, create_transaction, read_all_notifications, read_notification,
  reverse_transaction,
}

-- `new ApiError(status, code, message)`
pub record ApiError : Type 0 where
  pub status : ℕ
  pub code : Text
  pub message : Text

unfoldable pub is_permanent : ApiError → Bool
is_permanent e =
    leb 400 e.status && (ltb e.status 500 && (not (e.status == 408) && not (e.status == 429)))

-- The path of a request; all are POST requests.
pub data Route : Type 0 where
  transactions : Uuid → Route
  reverse : Uuid → Text → Route
  read_one : Text → Route
  read_all : Route

-- The body of CREATE_TRANSACTION is the payload with the key added to it.
pub record Request : Type 0 where
  pub route : Route
  pub body : Option Text
  pub idempotency_key : Uuid

-- What `sendMutation` ends with: a reply, an ApiError, or another exception with its text.
pub data Reply : Type 0 where
  confirmed : Reply
  refused : ApiError → Reply
  thrown : Text → Reply

-- What `fetch` gives: an exception, or an answer with its status, its status text and its body;
-- `json` is none where the body is not JSON, else its `code` and its `message`.
pub data Wire : Type 0 where
  unreachable : Text → Wire
  answer : ℕ → Text → Option (Option Text × Option Text) → Wire

abbrev pub or_text : Option Text → Text → Text
or_text none other = other
or_text (some t) other = t

abbrev error_of : ℕ → Text → Option (Option Text × Option Text) → ApiError
error_of status text none = record { status = status; code = codes "UNKNOWN"; message = text }
error_of status text (some (code, message)) = record {
  status = status;
  code = or_text code (codes "UNKNOWN");
  message = or_text message text;
}

abbrev parsed : Option (Option Text × Option Text) → Reply
parsed none = thrown (codes "SyntaxError")
parsed (some body) = confirmed

-- `apiFetch`, with the session's token; the value of the answer is not used by the queue
unfoldable pub api_fetch : Option Text → Wire → Reply
api_fetch none w =
    refused (record {
      status = 401;
      code = codes "NOT_AUTHENTICATED";
      message = codes "No active session";
    })
api_fetch (some token) (unreachable cause) =
    refused (record { status = 0; code = codes "NETWORK_UNAVAILABLE"; message = cause })
api_fetch (some token) (answer status text json) =
    if leb 200 status && ltb status 300
    then if status == 204 then confirmed else parsed json
    else refused (error_of status text json)

-- A JSON object: its field of a name as `String(...)` gives it, and the object with the key added.
pub record Payload : Type 0 where
  pub field : String → Text
  pub with_key : Uuid → Text

-- The outside of one drain: the JSON library, and for each round the clock when the mutation is
-- claimed and when its failure is noted, the random number, the session and the network.
pub record World : Type 0 where
  pub parse : Text → Outcome Text Payload
  pub now : ℕ → ℕ
  pub failed_at : ℕ → ℕ
  pub jitter : ℕ → ℕ
  pub token : ℕ → Option Text
  pub fetch : ℕ → Request → Wire

abbrev request_of : QueuedMutation → MutationKind → Payload → Request
request_of m create_transaction payload = record {
  route = transactions m.workspace_id;
  body = some (payload.with_key m.id);
  idempotency_key = m.id;
}
request_of m reverse_transaction payload = record {
  route = reverse m.workspace_id (payload.field "transaction_id");
  body = none;
  idempotency_key = m.id;
}
request_of m read_notification payload = record {
  route = read_one (payload.field "notification_id");
  body = none;
  idempotency_key = m.id;
}
request_of m read_all_notifications payload = record {
  route = read_all;
  body = none;
  idempotency_key = m.id;
}

abbrev send_parsed : World → ℕ → QueuedMutation → Outcome Text Payload → Reply
send_parsed w k m (err e) = thrown e
send_parsed w k m (ok payload) = api_fetch (w.token k) (w.fetch k (request_of m m.kind payload))

-- in the round `k` of the drain
unfoldable pub send_mutation : World → ℕ → QueuedMutation → Reply
send_mutation w k m = send_parsed w k m (w.parse m.payload)
