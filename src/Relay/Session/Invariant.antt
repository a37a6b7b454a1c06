-- ===== src/Relay/Session/Invariant.antt =====
-- The bounds of the session's buffer.
use ahlyx_labs.Common.{
  ℕ, ◌+◌, ◌≤◌, ◌≡◌, List, [], ◌∷◌, ◌++◌, Bytes, arith, length, length-append, is_some, true,
}
use ahlyx_labs.Relay.Session.{
  RelaySession, new_session, Call, reserves, releases, sets_agent, sets_browser, forwards, touches,
  closes, step, run, max_buffer_items, max_buffer_bytes, agent_role, viewer_role, other_role,
}

-- The bytes of all frames of a buffer.
abbrev pub total : List Bytes → ℕ
total [] = 0
total (m ∷ ms) = length m + total ms

pub total-append : (ms ns : List Bytes) → total (ms ++ ns) ≡ total ms + total ns
total-append [] ns = omega arith
total-append (m ∷ ms) ns = omega (arith, total-append ms ns)

pub record IsBounded (s : RelaySession) : Type 0 where
  pub counted : s.buf_bytes ≡ total s.buffer
  pub bytes : s.buf_bytes ≤ max_buffer_bytes
  pub items : length s.buffer ≤ max_buffer_items
  pub drained : is_some s.browser ≡ true → s.buffer ≡ []

step-IsBounded : (s : RelaySession) (c : Call) → IsBounded s → IsBounded (step s c)
unfolding step
step-IsBounded s (reserves agent_role token now) v = ground arith
step-IsBounded s (reserves viewer_role token now) v = ground arith
step-IsBounded s (reserves other_role token now) v = ground arith
step-IsBounded s (releases agent_role) v = ground arith
step-IsBounded s (releases viewer_role) v = ground arith
step-IsBounded s (releases other_role) v = ground arith
step-IsBounded s (sets_agent ws now) v = ground arith
step-IsBounded s (sets_browser ws now) v = ground arith
step-IsBounded s (forwards msg now) v =
    ground (arith, total-append s.buffer (msg ∷ []), length-append s.buffer (msg ∷ []))
step-IsBounded s (touches now) v = ground arith
step-IsBounded s closes v = ground arith

run-IsBounded : (s : RelaySession) (cs : List Call) → IsBounded s → IsBounded (run s cs)
unfolding run
run-IsBounded s [] v = v
run-IsBounded s (c ∷ cs) v = run-IsBounded (step s c) cs (step-IsBounded s c v)

-- Whatever calls a new session receives, in any order: `bufBytes` is the sum of the buffered
-- frames' lengths and at most maxBufferBytes, at most maxBufferItems frames are held, and none
-- while a browser is set.
pub run-new-IsBounded :
    (agent_token viewer_token : Bytes) (now : ℕ) (cs : List Call)
    → IsBounded (run (new_session agent_token viewer_token now) cs)
run-new-IsBounded agent_token viewer_token now cs =
    run-IsBounded (new_session agent_token viewer_token now) cs (ground arith)
