-- ===== src/Relay/Handler.antt =====
-- internal/pcap/handlers/relay.go: who may open a relay connection, and what its read loop does.
-- A request is what the handler reads of it; websocket.Subprotocols, the upgrade and ReadMessage
-- are the library's, so the protocols, the upgrade's result and the messages are arguments.
pub mod Admission
pub mod Lifecycle
use ahlyx_labs.Common.{
  ℕ, ◌≡◌, Bool, true, false, ◌||◌, ◌&&◌, not, Option, none, some, List, [], ◌∷◌, Bytes, str, str_eq,
  strip_prefix, ◌==◌, if◌then◌else◌,
}
use ahlyx_labs.Relay.Session.{RelayRole, agent_role, viewer_role, other_role}
use ahlyx_labs.Relay.Session
use ahlyx_labs.Relay.Store.{SessionStore, is_empty, reserve, remove, call_at}

abbrev pub browser_protocol : Bytes
browser_protocol = str "ahlyx-relay-v1"

pub record RelayRequest : Type 0 where
  pub authorization : Bytes
  pub protocols : List Bytes
  pub origin : Bytes
  pub session_id : Bytes

unfoldable pub is_viewer_origin : Bytes → Bool
is_viewer_origin origin =
    str_eq origin (str "https://ahlyxlabs.com") || str_eq origin (str "https://www.ahlyxlabs.com")

-- The upgrader's CheckOrigin.
unfoldable pub check_origin : Bytes → Bool
unfolding is_viewer_origin
check_origin origin = is_empty origin || is_viewer_origin origin

abbrev viewer_credentials : List Bytes → RelayRole × Bytes × Bool
viewer_credentials (protocol ∷ token ∷ []) =
    if str_eq protocol browser_protocol && not (is_empty token)
    then (viewer_role, token, true)
    else (other_role, [], false)
viewer_credentials _ = (other_role, [], false)

unfoldable pub relay_credentials : RelayRequest → RelayRole × Bytes × Bool
relay_credentials r = elim (strip_prefix (str "Bearer ") r.authorization) [
  | some token ↦ (agent_role, token, not (is_empty token))
  | none ↦ viewer_credentials r.protocols
]

pub data Outcome : Type 0 where
  unauthorized forbidden : Outcome
  -- The upgrade failed, and the reservation was released.
  not_upgraded : Outcome
  -- `relayAgent` or `relayBrowser` takes over, with the session's address.
  relays_agent relays_browser : ℕ → Outcome

abbrev relay_by : RelayRole → ℕ → Outcome
relay_by agent_role p = relays_agent p
relay_by _ p = relays_browser p

abbrev is_viewer : RelayRole → Bool
is_viewer viewer_role = true
is_viewer _ = false

upgrade : RelayRole → Bool → Option ℕ × SessionStore → Outcome × SessionStore
upgrade role upgraded (none, st) = (unauthorized, st)
upgrade role upgraded (some p, st) =
    if upgraded
    then (relay_by role p, st)
    else (not_upgraded, call_at st p (Session.Call.releases role))

admit : SessionStore → RelayRequest → Bool → ℕ → RelayRole × Bytes × Bool → Outcome × SessionStore
unfolding upgrade
admit st r upgraded now (role, token, ok) =
    if not ok
    then (unauthorized, st)
    else if is_viewer role && not (is_viewer_origin r.origin)
    then (forbidden, st)
    else upgrade role upgraded (reserve st r.session_id role token now)

-- `HandleRelay` up to the relay's loop. `upgraded` is the result of the upgrade.
unfoldable pub handle_relay : SessionStore → RelayRequest → Bool → ℕ → Outcome × SessionStore
unfolding admit
handle_relay st r upgraded now = admit st r upgraded now (relay_credentials r)

abbrev text_message : ℕ
text_message = 1

abbrev close_message : ℕ
close_message = 8

-- A message as ReadMessage gives it: its type, its payload, and when it came.
abbrev pub Message : Type 0
Message = ℕ × Bytes × ℕ

-- The loop of `serveRelayConnection`; the list ends where ReadMessage fails. `handle` gives the
-- new store, or `none` for false.
unfoldable pub serve :
    (SessionStore → Message → Option SessionStore) → ℕ → SessionStore → List Message → SessionStore
serve handle p st [] = st
serve handle p st (m ∷ ms) = elim (handle st m) [
  | none ↦ st
  | some st' ↦ serve handle p (call_at st' p (Session.Call.touches m.2)) ms
]

unfoldable pub agent_handle : ℕ → SessionStore → Message → Option SessionStore
agent_handle p st (type, msg, now) =
    if not (type == text_message) then none else some (call_at st p (Session.Call.forwards msg now))

unfoldable pub browser_handle : SessionStore → Message → Option SessionStore
browser_handle st (type, msg, now) = if type == close_message then some st else none

-- The deferred `Delete` runs when the loop ends, however it ends.
unfoldable pub relay_agent : SessionStore → ℕ → Bytes → ℕ → ℕ → List Message → SessionStore
unfolding serve agent_handle
relay_agent st p id conn now ms =
    remove (serve (agent_handle p) p (call_at st p (Session.Call.sets_agent conn now)) ms) id

unfoldable pub relay_browser : SessionStore → ℕ → Bytes → ℕ → ℕ → List Message → SessionStore
unfolding serve browser_handle
relay_browser st p id conn now ms =
    remove (serve browser_handle p (call_at st p (Session.Call.sets_browser conn now)) ms) id
