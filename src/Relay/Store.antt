-- ===== src/Relay/Store.antt =====
-- internal/pcap/session.go, type SessionStore. The map holds addresses, and the sessions stand on
-- a heap: a relay handler keeps its session's pointer after the store has dropped it. Each
-- operation is one critical section of the store's lock, with its calls on the sessions.
pub mod Invariant
pub mod Access
pub mod Revocation
pub mod Refinement
use ahlyx_labs.Common.{
  ℕ, suc, ◌≡◌, Bool, true, false, ◌||◌, not, Option, none, some, List, [], ◌∷◌, Bytes, str_eq, ◌==◌,
  if◌then◌else◌,
}
use ahlyx_labs.Common.Assoc.{Table, lookup, insert, delete, sweep}
use ahlyx_labs.Relay.Encoding.{random_hex, random_token, valid_session_id}
use ahlyx_labs.Relay.Session.{RelaySession, RelayRole, new_session, is_expired, close_both}
use ahlyx_labs.Relay.Session

pub record SessionCredentials : Type 0 where
  pub session_id : Bytes
  pub agent_token : Bytes
  pub viewer_token : Bytes

pub record SessionStore : Type 0 where
  pub sessions : Table ℕ
  pub heap : ℕ → RelaySession
  pub next : ℕ

-- A write through a pointer.
abbrev pub update : (ℕ → RelaySession) → ℕ → RelaySession → ℕ → RelaySession
update heap p s q = if q == p then s else heap q

abbrev pub new_store : (ℕ → RelaySession) → SessionStore
new_store heap = record { sessions = []; heap = heap; next = 0 }

-- The locked part of `Create`.
abbrev add_session : SessionStore → SessionCredentials → ℕ → SessionStore
add_session st c now = record {
  sessions = insert c.session_id st.next st.sessions;
  heap = update st.heap st.next (new_session c.agent_token c.viewer_token now);
  next = suc st.next;
}

-- The three calls of rand.Read give 16, 32 and 32 bytes, or fail; a failure changes nothing.
unfoldable pub create :
    SessionStore → (id agent viewer : Option Bytes) → ℕ → Option SessionCredentials × SessionStore
create st id agent viewer now = elim (random_hex id) [
  | none ↦ (none, st)
  | some id ↦ elim (random_token agent) [
    | none ↦ (none, st)
    | some agent ↦ elim (random_token viewer) [
      | none ↦ (none, st)
      | some viewer ↦
          let c : SessionCredentials = record {
            session_id = id;
            agent_token = agent;
            viewer_token = viewer;
          } in
          (some c, add_session st c now)
    ]
  ]
]

abbrev pub is_empty : Bytes → Bool
is_empty [] = true
is_empty (b ∷ s) = false

abbrev reserve_at : SessionStore → ℕ → Option RelaySession → Option ℕ × SessionStore
reserve_at st p none = (none, st)
reserve_at st p (some s) = (some p, record st { heap = update st.heap p s })

-- The result is the session's address, or `none` for `(nil, false)`.
unfoldable pub reserve : SessionStore → Bytes → RelayRole → Bytes → ℕ → Option ℕ × SessionStore
reserve st id role token now =
    if not (valid_session_id id) || is_empty token
    then (none, st)
    else elim (lookup id st.sessions) [
      | none ↦ (none, st)
      | some p ↦ reserve_at st p (Session.reserve (st.heap p) role token now)
    ]

unfoldable pub get : SessionStore → Bytes → Option ℕ
get st id = lookup id st.sessions

abbrev close_at : (ℕ → RelaySession) → Option ℕ → ℕ → RelaySession
close_at heap none = heap
close_at heap (some p) = update heap p (close_both (heap p))

unfoldable pub remove : SessionStore → Bytes → SessionStore
remove st id = record st {
  sessions = delete id st.sessions;
  heap = close_at st.heap (lookup id st.sessions);
}

-- `cleanup`: the expired entries are deleted and collected while ranging over the map; when the
-- lock is given up, each is closed.
stale : (ℕ → Bool) → Table ℕ → List ℕ
stale expired [] = []
stale expired ((k, p) ∷ m) = if expired p then p ∷ stale expired m else stale expired m

close_all : (ℕ → RelaySession) → List ℕ → ℕ → RelaySession
close_all heap [] = heap
close_all heap (p ∷ ps) = close_all (update heap p (close_both (heap p))) ps

unfoldable pub cleanup : SessionStore → ℕ → SessionStore
unfolding stale close_all
cleanup st now = record st {
  sessions = sweep (λ p. not (is_expired (st.heap p) now)) st.sessions;
  heap = close_all st.heap (stale (λ p. is_expired (st.heap p) now) st.sessions);
}

-- A method called by a handler through the pointer that it holds.
unfoldable pub call_at : SessionStore → ℕ → Session.Call → SessionStore
call_at st p c = record st { heap = update st.heap p (Session.step (st.heap p) c) }

pub data Request : Type 0 where
  creates : Option Bytes → Option Bytes → Option Bytes → ℕ → Request
  reserves : Bytes → RelayRole → Bytes → ℕ → Request
  removes : Bytes → Request
  cleans : ℕ → Request
  calls : ℕ → Session.Call → Request

unfoldable pub step : SessionStore → Request → SessionStore
unfolding create reserve remove cleanup call_at
step st (creates id agent viewer now) = (create st id agent viewer now).1
step st (reserves id role token now) = (reserve st id role token now).1
step st (removes id) = remove st id
step st (cleans now) = cleanup st now
step st (calls p c) = call_at st p c

unfoldable pub run : SessionStore → List Request → SessionStore
run st [] = st
run st (r ∷ rs) = run (step st r) rs
