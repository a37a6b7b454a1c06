-- ===== src/Tests/Handlers.antt =====
-- The theorems of the relay's handler and of the delivery of frames at short runs.
use ahlyx_labs.Common.{
  ◌+◌, ◌*◌, ◌≡◌, ◌≢◌, refl, ◌↔◌, ◌⊎◌, true, false, none, some, [], ◌∷◌, ◌++◌, Bytes, str, str_eq,
  strip_prefix, Subseq, length, arith, if◌then◌else◌, second,
}
use ahlyx_labs.Relay.Session.{new_session, agent_role, viewer_role}
use ahlyx_labs.Relay.Store as Store
use ahlyx_labs.Relay.Store.{SessionStore}
use ahlyx_labs.Relay.Store.Refinement.{view}
use ahlyx_labs.Relay.Delivery.{Relay, start, forwarded, Step, Reach}
use ahlyx_labs.Relay.Delivery.Order.{accounted, wire-Subseq}
use ahlyx_labs.Relay.Handler.{RelayRequest, browser_protocol, Outcome, handle_relay, relay_agent}
use ahlyx_labs.Relay.Handler.Admission.{
  handle_relay-agent_iff, handle_relay-viewer_iff, handle_relay-unspent, SameButUse, bearer,
}
use ahlyx_labs.Relay.Handler.Lifecycle.{relay_agent-view}
use ahlyx_labs.Tests.Relay.{id, stocked, stocked-IsSound, stocked-id}

-- The agent sends a frame before a viewer is there.
abbrev buffered : Relay
buffered = forwarded (start (new_session (str "agent") (str "viewer") second)) (str "frame") second

buffered-Reach : Reach (start (new_session (str "agent") (str "viewer") second)) buffered
buffered-Reach = Reach.next Reach.here (Step.forwards (str "frame") second refl refl)

wire-Subseq_example :
    Subseq buffered.wire buffered.sent
    × (length (accounted buffered) + buffered.lost ≡ length buffered.sent)
wire-Subseq_example = wire-Subseq (str "agent") (str "viewer") second buffered-Reach

abbrev idle : Relay
idle = start (new_session (str "agent") (str "viewer") second)

abbrev agent_request : RelayRequest
agent_request = record {
  authorization = str "Bearer agent";
  protocols = [];
  origin = [];
  session_id = id;
}

handle_relay-agent_iff_example :
    ((handle_relay stocked agent_request true (2 * second)).0 ≡ Outcome.relays_agent 0) ↔ (
      (token : Bytes) × (agent_request.authorization ≡ bearer ++ token)
      × (true ≡ true)
      × (token ≢ [])
      × ((Store.reserve stocked agent_request.session_id agent_role token (2 * second)).0 ≡ some 0))
handle_relay-agent_iff_example = handle_relay-agent_iff stocked agent_request true (2 * second) 0

abbrev viewer_request : RelayRequest
viewer_request = record {
  authorization = [];
  protocols = browser_protocol ∷ str "viewer" ∷ [];
  origin = str "https://ahlyxlabs.com";
  session_id = id;
}

handle_relay-viewer_iff_example :
    ((handle_relay stocked viewer_request true (2 * second)).0 ≡ Outcome.relays_browser 0) ↔ (
      (token : Bytes) × (viewer_request.protocols ≡ browser_protocol ∷ token ∷ [])
      × (token ≢ [])
      × (strip_prefix bearer viewer_request.authorization ≡ none)
      × ((viewer_request.origin ≡ str "https://ahlyxlabs.com")
          ⊎ (viewer_request.origin ≡ str "https://www.ahlyxlabs.com"))
      × (true ≡ true)
      × ((Store.reserve stocked viewer_request.session_id viewer_role token (2 * second)).0
          ≡ some 0))
handle_relay-viewer_iff_example = handle_relay-viewer_iff stocked viewer_request true (2 * second) 0

handle_relay-unspent_example :
    let (o, st') = handle_relay stocked viewer_request false (2 * second) in
    (st'.sessions ≡ stocked.sessions) × SameButUse (st'.heap 0) (stocked.heap 0)
handle_relay-unspent_example =
    handle_relay-unspent stocked viewer_request (2 * second) 0 (λ p. ground arith)

relay_agent-view_example :
    view (relay_agent stocked 0 id 7 (2 * second) []) id
    ≡ (if str_eq id id then none else view stocked id)
relay_agent-view_example =
    relay_agent-view stocked 0 7 (2 * second) id id [] stocked-IsSound stocked-id
