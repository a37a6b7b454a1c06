-- ===== src/Relay/Session.antt =====
-- internal/pcap/session.go, type RelaySession: the two ends of a relay pair, their one-time
-- credentials, and the buffer for frames that arrive before the browser. A method that holds
-- `mu` throughout is one function; times are arguments, a connection is a number.
pub mod Invariant
pub mod Binding
pub mod Expiry
use ahlyx_labs.Common.{
  ℕ, suc, ◌+◌, ◌-◌, ◌*◌, ◌≡◌, Bool, true, false, ◌&&◌, ◌||◌, Option, none, some, List, [], ◌∷◌,
  ◌++◌, Bytes, str_eq, ltb, leb, ◌==◌, if◌then◌else◌, not, is_some, length, second, hour,
}

abbrev pub session_ttl : ℕ
session_ttl = hour

abbrev pub max_buffer_bytes : ℕ
max_buffer_bytes = 1_048_576

abbrev pub max_buffer_items : ℕ
max_buffer_items = 50

-- `other_role` is any string but the two role constants, the empty one included.
pub data RelayRole : Type 0 where
  agent_role viewer_role other_role : RelayRole

pub record RelaySession : Type 0 where
  pub agent : Option ℕ
  pub browser : Option ℕ
  pub buffer : List Bytes
  pub buf_bytes : ℕ
  pub agent_token : Bytes
  pub viewer_token : Bytes
  pub agent_bound : Bool
  pub viewer_bound : Bool
  pub created : ℕ
  pub last_used : ℕ

-- The struct literal of `Create`; the other fields have their zero values.
abbrev pub new_session : Bytes → Bytes → ℕ → RelaySession
new_session agent_token viewer_token now = record {
  agent = none;
  browser = none;
  buffer = [];
  buf_bytes = 0;
  agent_token = agent_token;
  viewer_token = viewer_token;
  agent_bound = false;
  viewer_bound = false;
  created = now;
  last_used = now;
}

unfoldable pub equal_secret : Bytes → Bytes → Bool
equal_secret provided expected =
    if not (length provided == length expected) then false else str_eq provided expected

-- The switch of `Reserve`: the session with the role bound, or `none` for `return false`.
bind_role : RelaySession → RelayRole → Bytes → Option RelaySession
bind_role s agent_role token =
    if s.agent_bound || not (equal_secret token s.agent_token)
    then none
    else some (record s { agent_bound = true })
bind_role s viewer_role token =
    if s.viewer_bound || not (equal_secret token s.viewer_token)
    then none
    else some (record s { viewer_bound = true })
bind_role s other_role token = none

stamp : ℕ → Option RelaySession → Option RelaySession
stamp now none = none
stamp now (some s) = some (record s { last_used = now })

-- `none` is the result false, which leaves the session as it was.
unfoldable pub reserve : RelaySession → RelayRole → Bytes → ℕ → Option RelaySession
unfolding bind_role stamp
reserve s role token now =
    if ltb session_ttl (now - s.created) then none else stamp now (bind_role s role token)

unfoldable pub release : RelaySession → RelayRole → RelaySession
release s agent_role = if is_some s.agent then s else record s { agent_bound = false }
release s viewer_role = if is_some s.browser then s else record s { viewer_bound = false }
release s other_role = s

unfoldable pub set_agent : RelaySession → ℕ → ℕ → RelaySession
set_agent s ws now = record s { agent = some ws; last_used = now }

-- The part of `SetBrowserAndFlush` under `mu`: the browser is set and the buffer taken out.
unfoldable pub set_browser : RelaySession → ℕ → ℕ → RelaySession × List Bytes
set_browser s ws now =
    (record s { browser = some ws; last_used = now; buffer = []; buf_bytes = 0 }, s.buffer)

-- The loop of `SetBrowserAndFlush`: what reaches the connection, where `writes` says which
-- attempts succeed. It stops at the first error.
unfoldable pub flush : List Bytes → List Bool → List Bytes
flush [] writes = []
flush (msg ∷ buf) [] = []
flush (msg ∷ buf) (false ∷ writes) = []
flush (msg ∷ buf) (true ∷ writes) = msg ∷ flush buf writes

-- The part of `Forward` under `mu`. With a browser set the frame goes to it afterwards, under
-- `sendMu`; without one it is buffered, or dropped if the buffer is full.
unfoldable pub forward : RelaySession → Bytes → ℕ → RelaySession × Option ℕ
forward s msg now = elim s.browser [
  | some ws ↦ (record s { last_used = now }, some ws)
  | none ↦ (
    if ltb (length s.buffer) max_buffer_items && leb (s.buf_bytes + length msg) max_buffer_bytes
        then record s {
          last_used = now;
          buffer = s.buffer ++ msg ∷ [];
          buf_bytes = s.buf_bytes + length msg;
        }
        else record s { last_used = now },
    none,
  )
]

unfoldable pub touch : RelaySession → ℕ → RelaySession
touch s now = record s { last_used = now }

unfoldable pub is_expired : RelaySession → ℕ → Bool
is_expired s now = ltb session_ttl (now - s.created) || ltb session_ttl (now - s.last_used)

-- The connections that `CloseBoth` closes are those of the session that it is given.
unfoldable pub close_both : RelaySession → RelaySession
close_both s = record s {
  agent = none;
  browser = none;
  buffer = [];
  buf_bytes = 0;
  agent_token = [];
  viewer_token = [];
}

-- The calls on one session, with their arguments and times.
pub data Call : Type 0 where
  reserves : RelayRole → Bytes → ℕ → Call
  releases : RelayRole → Call
  sets_agent sets_browser : ℕ → ℕ → Call
  forwards : Bytes → ℕ → Call
  touches : ℕ → Call
  closes : Call

abbrev pub or_same : RelaySession → Option RelaySession → RelaySession
or_same s none = s
or_same s (some t) = t

unfoldable pub step : RelaySession → Call → RelaySession
unfolding reserve release set_agent set_browser forward touch close_both
step s (reserves role token now) = or_same s (reserve s role token now)
step s (releases role) = release s role
step s (sets_agent ws now) = set_agent s ws now
step s (sets_browser ws now) = (set_browser s ws now).0
step s (forwards msg now) = (forward s msg now).0
step s (touches now) = touch s now
step s closes = close_both s

unfoldable pub run : RelaySession → List Call → RelaySession
run s [] = s
run s (c ∷ cs) = run (step s c) cs
