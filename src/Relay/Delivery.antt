-- ===== src/Relay/Delivery.antt =====
-- internal/pcap/session.go, `Forward` and `SetBrowserAndFlush` run by two goroutines: the agent's
-- read loop, which forwards one frame after another, and the browser's handler. A step is what a
-- goroutine does between two points where it may have to wait for `mu` or `sendMu`, or one write.
pub mod Order
use ahlyx_labs.Common.{
  ℕ, suc, ◌+◌, ◌≡◌, ◌⊎◌, Bool, Option, none, some, List, [], ◌∷◌, ◌++◌, Bytes, length, is_some, ltb,
  leb, ◌&&◌, if◌then◌else◌,
}
use ahlyx_labs.Relay.Session.{
  RelaySession, forward, set_browser, close_both, max_buffer_items, max_buffer_bytes,
}

-- The browser's handler before `sendMu`, holding it, holding it with frames left to write, or
-- past it.
pub data Viewer : Type 0 where
  outside locked attached : Viewer
  flushing : List Bytes → Viewer

-- `agent` is the frame with which the agent's loop waits for `sendMu`. For the statements, `wire`
-- collects what the browser was sent, `sent` all frames given to `Forward`, oldest first, and
-- `lost` counts the frames that were dropped.
pub record Relay : Type 0 where
  pub session : RelaySession
  pub agent : Option Bytes
  pub viewer : Viewer
  pub wire : List Bytes
  pub sent : List Bytes
  pub lost : ℕ

abbrev pub start : RelaySession → Relay
start s = record {
  session = s;
  agent = none;
  viewer = Viewer.outside;
  wire = [];
  sent = [];
  lost = 0;
}

-- Whether `Forward` keeps the frame, in the buffer or in its hands.
abbrev pub takes : RelaySession → Bytes → Bool
takes s msg =
    if is_some s.browser
    then is_some s.browser
    else ltb (length s.buffer) max_buffer_items && leb (s.buf_bytes + length msg) max_buffer_bytes

abbrev waits : Bytes → Option ℕ → Option Bytes
waits msg none = none
waits msg (some ws) = some msg

-- `Forward` up to the end of its section under `mu`, by an agent's loop that is not waiting.
unfoldable pub forwarded : Relay → Bytes → ℕ → Relay
unfolding forward
forwarded t msg now = record t {
  session = (forward t.session msg now).0;
  agent = waits msg (forward t.session msg now).1;
  sent = t.sent ++ msg ∷ [];
  lost = if takes t.session msg then t.lost else suc t.lost;
}

unfoldable pub swapped : Relay → ℕ → ℕ → Relay
unfolding set_browser
swapped t ws now = record t {
  session = (set_browser t.session ws now).0;
  viewer = Viewer.flushing (set_browser t.session ws now).1;
}

unfoldable pub closed : Relay → Relay
unfolding close_both
closed t = record t { session = close_both t.session; lost = t.lost + length t.session.buffer }

pub data Step (t u : Relay) : Type 0 where
  forwards : (msg : Bytes) (now : ℕ) → t.agent ≡ none → u ≡ forwarded t msg now → Step t u
  -- The agent's loop has `sendMu`, which no flush holds, and writes its frame; or fails to.
  writes :
      (msg : Bytes)
      → t.agent ≡ some msg
      → (t.viewer ≡ Viewer.outside) ⊎ (t.viewer ≡ Viewer.attached)
      → u ≡ record t { agent = none; wire = t.wire ++ msg ∷ [] }
      → Step t u
  misses :
      (msg : Bytes)
      → t.agent ≡ some msg
      → (t.viewer ≡ Viewer.outside) ⊎ (t.viewer ≡ Viewer.attached)
      → u ≡ record t { agent = none; lost = suc t.lost }
      → Step t u
  locks : t.viewer ≡ Viewer.outside → u ≡ record t { viewer = Viewer.locked } → Step t u
  swaps : (ws now : ℕ) → t.viewer ≡ Viewer.locked → u ≡ swapped t ws now → Step t u
  flushes :
      (msg : Bytes) (rest : List Bytes)
      → t.viewer ≡ Viewer.flushing (msg ∷ rest)
      → u ≡ record t { viewer = Viewer.flushing rest; wire = t.wire ++ msg ∷ [] }
      → Step t u
  -- A failed write ends the flush; the frames that are left are dropped.
  breaks :
      (msg : Bytes) (rest : List Bytes)
      → t.viewer ≡ Viewer.flushing (msg ∷ rest)
      → u ≡ record t { viewer = Viewer.attached; lost = t.lost + length (msg ∷ rest) }
      → Step t u
  unlocks : t.viewer ≡ Viewer.flushing [] → u ≡ record t { viewer = Viewer.attached } → Step t u
  -- `CloseBoth`, by the store's cleanup or `Delete`, at any time.
  closes : u ≡ closed t → Step t u

pub data Reach (s : Relay) : Relay → Type 0 where
  here : Reach s s
  next : {t u : Relay} → Reach s t → Step t u → Reach s u
