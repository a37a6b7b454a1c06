-- ===== src/Relay/Endpoint.antt =====
-- internal/pcap/handlers/session.go: the endpoint that creates a session.
use ahlyx_labs.Common.{ℕ, false, Option, none, some, [], ◌∷◌, ◌++◌, Bytes, str}
use ahlyx_labs.Json.{text, object, end, member}
use ahlyx_labs.Json.Render.{render}
use ahlyx_labs.Telemetry.{Telemetry, QueryLogEntry, log_query}
use ahlyx_labs.Relay.Store.{SessionStore, SessionCredentials, create}

pub record Answer : Type 0 where
  pub status : ℕ
  pub body : Bytes

pub record Created : Type 0 where
  pub answer : Answer
  pub store : SessionStore
  pub telemetry : Telemetry

abbrev session_entry : QueryLogEntry
session_entry = record {
  tool = str "pcap";
  query_type = str "session";
  verdict = [];
  threat = false;
  source_count = 0;
  response_ms = 0;
  host_count = 0;
  port_count = 0;
}

-- The keys of the map in order.
unfoldable pub credentials_body : SessionCredentials → Bytes
unfolding render
credentials_body c =
    render (
      object (
        member (str "agent_token") (text c.agent_token) (
          member (str "relay_url") (text (str "wss://api.ahlyxlabs.com/ws/relay/" ++ c.session_id))
            (member (str "session_id") (text c.session_id)
              (member (str "viewer_token") (text c.viewer_token) end)))))
    ++ 10 ∷ []

abbrev unavailable : Bytes
unavailable =
    render
      (object (member (str "error") (text (str "relay session is temporarily unavailable")) end))
    ++ 10 ∷ []

abbrev pub on_created : Telemetry → Option SessionCredentials × SessionStore → Created
on_created t (none, st) = record {
  answer = record { status = 503; body = unavailable };
  store = st;
  telemetry = t;
}
on_created t (some c, st) = record {
  answer = record { status = 200; body = credentials_body c };
  store = st;
  telemetry = log_query t session_entry;
}

-- The random bytes are those of the three calls of rand.Read.
unfoldable pub new_session :
    SessionStore → Telemetry → (id agent viewer : Option Bytes) → ℕ → Created
new_session st t id agent viewer now = on_created t (create st id agent viewer now)
