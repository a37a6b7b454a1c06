-- ===== src/Relay/Store/Refinement.antt =====
-- The store as a partial function from identifiers to sessions, and what each operation does to it.
use ahlyx_labs.Common.{
  ℕ, ◌≡◌, ◌≢◌, refl, Bool, false, ◌||◌, not, Option, none, some, List, [], ◌∷◌, Bytes, arith,
  str_eq, str_eq_iff, str_eq_refl, Option-cases, inl, inr, if◌then◌else◌, ◌==◌, any, ==_iff,
}
use ahlyx_labs.Common.Assoc.{
  Table, lookup, kept, Distinct, lookup-insert, lookup-delete, lookup-sweep,
}
use ahlyx_labs.Relay.Encoding.{random_hex, random_token, valid_session_id}
use ahlyx_labs.Relay.Session.{RelaySession, RelayRole, new_session, is_expired, close_both}
use ahlyx_labs.Relay.Session
use ahlyx_labs.Relay.Store.{
  SessionStore, SessionCredentials, create, reserve, remove, cleanup, call_at, Request, creates,
  reserves, removes, cleans, calls, step, add_session, is_empty, stale, close_all, update,
}
use ahlyx_labs.Relay.Store.Invariant.{IsSound, step-IsSound}

abbrev pub View : Type 0
View = Bytes → Option RelaySession

abbrev at_address : (ℕ → RelaySession) → Option ℕ → Option RelaySession
at_address heap none = none
at_address heap (some p) = some (heap p)

unfoldable pub view : SessionStore → View
view st id = at_address st.heap (lookup id st.sessions)

abbrev put : View → Bytes → Option RelaySession → View
put v id s j = if str_eq id j then s else v j

abbrev credentials : Option Bytes → Option Bytes → Option Bytes → Option SessionCredentials
credentials (some id) (some agent) (some viewer) =
    some (record { session_id = id; agent_token = agent; viewer_token = viewer })
credentials _ _ _ = none

abbrev after_create : View → Option SessionCredentials → ℕ → View
after_create v none now = v
after_create v (some c) now =
    put v c.session_id (some (new_session c.agent_token c.viewer_token now))

abbrev reserved : Option RelaySession → RelayRole → Bytes → ℕ → Option RelaySession
reserved none role token now = none
reserved (some s) role token now = some (Session.or_same s (Session.reserve s role token now))

-- The abstract store: each operation as a function of the view alone.
abbrev pub spec_create : View → (id agent viewer : Option Bytes) → ℕ → View
spec_create v id agent viewer now =
    after_create v (credentials (random_hex id) (random_token agent) (random_token viewer)) now

abbrev pub spec_reserve : View → Bytes → RelayRole → Bytes → ℕ → View
spec_reserve v id role token now =
    if not (valid_session_id id) || is_empty token
    then v
    else put v id (reserved (v id) role token now)

abbrev pub spec_remove : View → Bytes → View
spec_remove v id = put v id none

abbrev pub spec_cleanup : View → ℕ → View
spec_cleanup v now j = kept (λ s. not (is_expired s now)) (v j)

-- A write to the session of one identifier shows at that identifier only.
view-update :
    (st : SessionStore) (id : Bytes) (p : ℕ) (s : RelaySession) (j : Bytes)
    → IsSound st
    → lookup id st.sessions ≡ some p
    → at_address (update st.heap p s) (lookup j st.sessions) ≡ put (view st) id (some s) j
unfolding view
view-update st id p s j v e = elim (Option-cases (lookup j st.sessions)) [
  | inl f ↦ ground (arith, str_eq_iff id j)
  | inr (q, f) ↦ ground (arith, str_eq_iff id j, v.owned id j p)
]

view-add :
    (st : SessionStore) (c : SessionCredentials) (now : ℕ) (j : Bytes)
    → IsSound st
    → view (add_session st c now) j ≡ after_create (view st) (some c) now j
unfolding view
view-add st c now j v = elim (Option-cases (lookup j st.sessions)) [
  | inl f ↦ ground (arith, lookup-insert c.session_id j st.next st.sessions)
  | inr (q, f) ↦ ground (arith, lookup-insert c.session_id j st.next st.sessions, v.below j q)
]

view-create :
    (st : SessionStore) (id agent viewer : Option Bytes) (now : ℕ) (j : Bytes)
    → IsSound st
    → view (create st id agent viewer now).1 j ≡ spec_create (view st) id agent viewer now j
unfolding create
view-create st id agent viewer now j v = elim (Option-cases (random_hex id)) [
  | inl e ↦ rw (e, create)
  | inr (i, e) ↦ elim (Option-cases (random_token agent)) [
    | inl f ↦ rw (e, f, create)
    | inr (a, f) ↦ elim (Option-cases (random_token viewer)) [
      | inl g ↦ rw (e, f, g, create)
      | inr (w, g) ↦
          let c : SessionCredentials = record {
            session_id = i;
            agent_token = a;
            viewer_token = w;
          } in
          rw (e, f, g, create) (view-add st c now j v)
    ]
  ]
]

view-reserve :
    (st : SessionStore) (id : Bytes) (role : RelayRole) (token : Bytes) (now : ℕ) (j : Bytes)
    → IsSound st
    → view (reserve st id role token now).1 j ≡ spec_reserve (view st) id role token now j
unfolding view reserve
view-reserve st id role token now j v = elim (Option-cases (lookup id st.sessions)) [
  | inl e ↦ ground (arith, str_eq_iff id j)
  | inr (p, e) ↦ elim (Option-cases (Session.reserve (st.heap p) role token now)) [
    | inl f ↦ ground (arith, str_eq_iff id j)
    | inr (s, f) ↦ ground (arith, view-update st id p s j v)
  ]
]

view-remove :
    (st : SessionStore) (id j : Bytes)
    → IsSound st
    → view (remove st id) j ≡ spec_remove (view st) id j
unfolding view remove
view-remove st id j v = elim (Option-cases (lookup id st.sessions)) [
  | inl e ↦ ground (arith, lookup-delete id j st.sessions)
  | inr (p, e) ↦
      ground
        (arith, lookup-delete id j st.sessions, view-update st id p (close_both (st.heap p)) j v)
]

close_all_other :
    (heap : ℕ → RelaySession) (ps : List ℕ) (q : ℕ)
    → any (λ p. q == p) ps ≡ false
    → close_all heap ps q ≡ heap q
unfolding close_all
close_all_other heap [] q h = refl
close_all_other heap (p ∷ ps) q h =
    ground (arith, close_all_other (update heap p (close_both (heap p))) ps q)

stale_other :
    (expired : ℕ → Bool) (m : Table ℕ) (q : ℕ)
    → expired q ≡ false
    → any (λ p. q == p) (stale expired m) ≡ false
unfolding stale
stale_other expired [] q h = refl
stale_other expired ((k, p) ∷ m) q h = ground (arith, stale_other expired m q, ==_iff q p)

view-cleanup :
    (st : SessionStore) (now : ℕ) (j : Bytes)
    → IsSound st
    → view (cleanup st now) j ≡ spec_cleanup (view st) now j
unfolding view cleanup
view-cleanup st now j v = elim (Option-cases (lookup j st.sessions)) [
  | inl e ↦
      ground (arith, lookup-sweep (λ p. not (is_expired (st.heap p) now)) j st.sessions v.distinct)
  | inr (p, e) ↦ ground (
    arith,
    lookup-sweep (λ p. not (is_expired (st.heap p) now)) j st.sessions v.distinct,
    close_all_other st.heap (stale (λ p. is_expired (st.heap p) now) st.sessions) p,
    stale_other (λ p. is_expired (st.heap p) now) st.sessions p,
  )
]

-- The identifier that maps to an address.
pub resolve : Table ℕ → ℕ → Option Bytes
resolve [] p = none
resolve ((k, q) ∷ m) p = if q == p then some k else resolve m p

resolve-lookup :
    (m : Table ℕ) (p : ℕ) (id : Bytes) → Distinct m → resolve m p ≡ some id → lookup id m ≡ some p
unfolding resolve lookup
resolve-lookup [] p id d h = cc
resolve-lookup ((k, q) ∷ m) p id d h =
    ground (arith, ==_iff q p, str_eq_iff k id, str_eq_refl k, resolve-lookup m p id d.1)

resolve-none : (m : Table ℕ) (p : ℕ) (id : Bytes) → resolve m p ≡ none → lookup id m ≢ some p
unfolding resolve lookup
resolve-none [] p id h = λ e. cc
resolve-none ((k, q) ∷ m) p id h = λ e. ground (arith, resolve-none m p id)

called : Option RelaySession → Session.Call → Option RelaySession
called none c = none
called (some s) c = some (Session.step s c)

spec_call : View → Option Bytes → Session.Call → View
unfolding called
spec_call v none c = v
spec_call v (some id) c = put v id (called (v id) c)

view-call :
    (st : SessionStore) (p : ℕ) (c : Session.Call) (j : Bytes)
    → IsSound st
    → view (call_at st p c) j ≡ spec_call (view st) (resolve st.sessions p) c j
unfolding view call_at spec_call
view-call st p c j v = elim (Option-cases (resolve st.sessions p)) [
  | inl e ↦ elim (Option-cases (lookup j st.sessions)) [
    | inl f ↦ ground arith
    | inr (q, f) ↦ ground (arith, resolve-none st.sessions p j, ==_iff q p)
  ]
  | inr (id, e) ↦ ground (
    arith,
    resolve-lookup st.sessions p id v.distinct,
    view-update st id p (Session.step (st.heap p) c) j v,
  )
]

-- The abstract store; a handler's pointer stands for the identifier that maps to it, if any.
unfoldable pub spec_step : View → (ℕ → Option Bytes) → Request → View
unfolding spec_call
spec_step v owner (creates id agent viewer now) = spec_create v id agent viewer now
spec_step v owner (reserves id role token now) = spec_reserve v id role token now
spec_step v owner (removes id) = spec_remove v id
spec_step v owner (cleans now) = spec_cleanup v now
spec_step v owner (calls p c) = spec_call v (owner p) c

-- Every operation on a sound store leaves it sound and does to its view, at each identifier, what
-- the abstract store does: `Create` binds the new identifier to a new session, `Reserve` changes
-- the session of its identifier only, `Delete` unbinds one identifier, `cleanup` unbinds exactly
-- the expired ones, and a call through a pointer changes the session of the identifier that maps
-- to it, or none if the store has dropped that session.
pub view-step :
    (st : SessionStore) (r : Request) (j : Bytes)
    → IsSound st
    → IsSound (step st r) × (view (step st r) j ≡ spec_step (view st) (resolve st.sessions) r j)
unfolding step spec_step
view-step st (creates id agent viewer now) j v =
    (step-IsSound st (creates id agent viewer now) v, view-create st id agent viewer now j v)
view-step st (reserves id role token now) j v =
    (step-IsSound st (reserves id role token now) v, view-reserve st id role token now j v)
view-step st (removes id) j v = (step-IsSound st (removes id) v, view-remove st id j v)
view-step st (cleans now) j v = (step-IsSound st (cleans now) v, view-cleanup st now j v)
view-step st (calls p c) j v = (step-IsSound st (calls p c) v, view-call st p c j v)
