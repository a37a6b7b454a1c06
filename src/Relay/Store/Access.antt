-- ===== src/Relay/Store/Access.antt =====
-- Which reservations the store grants.
use ahlyx_labs.Common.{
  ℕ, ◌-◌, ◌≤◌, ◌≡◌, ◌≢◌, ◌↔◌, refl, ap, subst, true, none, some, [], Bytes, arith, str_eq_refl,
  Option-cases, Bool-cases, ◌⊎◌, ◌||◌, not, inl, inr,
}
use ahlyx_labs.Common.Assoc.{lookup, lookup-insert}
use ahlyx_labs.Relay.Encoding.{
  IsRandom, hex_encode, base64_encode, random_hex, random_token, valid_session_id, random_hex-valid,
  random_token-ne,
}
use ahlyx_labs.Relay.Session.{
  RelaySession, RelaySession, RelayRole, agent_role, viewer_role, new_session, session_ttl,
  is_expired,
}
use ahlyx_labs.Relay.Session
use ahlyx_labs.Relay.Session.Binding.{Admits, reserve_iff, bound}
use ahlyx_labs.Relay.Store.{
  SessionStore, SessionCredentials, is_empty, create, reserve, add_session, update,
}

reserve_sound :
    (st : SessionStore) (id : Bytes) (role : RelayRole) (token : Bytes) (now p : ℕ)
    → (reserve st id role token now).0 ≡ some p
    → (valid_session_id id ≡ true)
      × (token ≢ [])
      × (lookup id st.sessions ≡ some p)
      × Admits (st.heap p) role token now
unfolding reserve
reserve_sound st id role token now p h = elim (Option-cases (lookup id st.sessions)) [
  | inl e ↦ ground arith
  | inr (q, e) ↦ elim (Option-cases (Session.reserve (st.heap q) role token now)) [
    | inl f ↦ ground arith
    | inr (s, f) ↦
        let same : q ≡ p = ground arith in
        let admits = ((reserve_iff (st.heap q) s role token now).0 f).0 in
        (
          ground arith,
          ground arith,
          ground arith,
          subst (λ r. Admits (st.heap r) role token now) same admits,
        )
  ]
]

reserve_complete :
    (st : SessionStore) (id : Bytes) (role : RelayRole) (token : Bytes) (now p : ℕ)
    → valid_session_id id ≡ true
    → token ≢ []
    → lookup id st.sessions ≡ some p
    → Admits (st.heap p) role token now
    → reserve st id role token now
      ≡ (some p, record st { heap = update st.heap p (bound (st.heap p) role now) })
unfolding reserve
reserve_complete st id role token now p valid filled e admits =
    let granted =
      (reserve_iff (st.heap p) (bound (st.heap p) role now) role token now).1 (admits, refl) in
    rw (valid, e, granted, reserve) (ground arith)

-- The store hands out a session exactly when the identifier has the form of one and maps to that
-- session, the token is not empty, and the session admits the role with this token at this time.
pub reserve-eq-some_iff :
    (st : SessionStore) (id : Bytes) (role : RelayRole) (token : Bytes) (now p : ℕ)
    → ((reserve st id role token now).0 ≡ some p) ↔ (
        (valid_session_id id ≡ true)
        × (token ≢ [])
        × (lookup id st.sessions ≡ some p)
        × Admits (st.heap p) role token now)
reserve-eq-some_iff st id role token now p = (
  reserve_sound st id role token now p,
  λ h. ap (λ r. r.0) (reserve_complete st id role token now p h.0 h.1 h.2 h.3),
)

module _ (st : SessionStore) (c : SessionCredentials) (now : ℕ) where
  added : SessionStore
  added = add_session st c now

  lookup-added : lookup c.session_id added.sessions ≡ some st.next
  unfolding added
  lookup-added =
      ground (
        arith,
        lookup-insert c.session_id c.session_id st.next st.sessions,
        str_eq_refl c.session_id,
      )

  heap-added : added.heap st.next ≡ new_session c.agent_token c.viewer_token now
  unfolding added
  heap-added = ground arith

  -- The new store once its agent's role is reserved.
  held : ℕ → SessionStore
  held t = record added {
    heap = update added.heap st.next (bound (added.heap st.next) agent_role t);
  }

  module _ (valid : valid_session_id c.session_id ≡ true) where
    reserve-added_agent :
        (t : ℕ)
        → c.agent_token ≢ []
        → t - now ≤ session_ttl
        → reserve added c.session_id agent_role c.agent_token t ≡ (some st.next, held t)
    unfolding held
    reserve-added_agent t filled h =
        reserve_complete added c.session_id agent_role c.agent_token t st.next valid filled
          lookup-added (rw heap-added (h, refl, refl))

    reserve-added_viewer :
        (t : ℕ)
        → c.viewer_token ≢ []
        → t - now ≤ session_ttl
        → (reserve added c.session_id viewer_role c.viewer_token t).0 ≡ some st.next
    reserve-added_viewer t filled h =
        (reserve-eq-some_iff added c.session_id viewer_role c.viewer_token t st.next).1
          (valid, filled, lookup-added, rw heap-added (h, refl, refl))

    reserve-held_viewer :
        (t u : ℕ)
        → c.viewer_token ≢ []
        → u - now ≤ session_ttl
        → (reserve (held t) c.session_id viewer_role c.viewer_token u).0 ≡ some st.next
    unfolding held
    reserve-held_viewer t u filled h =
        (reserve-eq-some_iff (held t) c.session_id viewer_role c.viewer_token u st.next).1
          (valid, filled, lookup-added, rw heap-added (ground arith))

  reserve-held_agent :
      (t u : ℕ) (token : Bytes) → (reserve (held t) c.session_id agent_role token u).0 ≡ none
  unfolding held
  reserve-held_agent t u token =
      elim (Option-cases (reserve (held t) c.session_id agent_role token u).0) [
        | inl e ↦ e
        | inr (p, e) ↦
            let found = (reserve-eq-some_iff (held t) c.session_id agent_role token u p).0 e in
            ground (arith, lookup-added)
      ]

-- With 16, 32 and 32 random bytes `Create` succeeds. Within the session's time to live its agent
-- token then reserves the agent's role, and its viewer token the viewer's, after the agent's as
-- well as before; once the agent's role is reserved, no token reserves it again.
pub create-reserve :
    (st : SessionStore) (b a w token : Bytes) (now t u : ℕ)
    → IsRandom 16 b
    → IsRandom 32 a
    → IsRandom 32 w
    → t - now ≤ session_ttl
    → u - now ≤ session_ttl
    → (c : SessionCredentials) × (s s' : SessionStore) × (create st (some b) (some a) (some w) now
        ≡ (some c, s))
      × (reserve s c.session_id agent_role c.agent_token t ≡ (some st.next, s'))
      × ((reserve s c.session_id viewer_role c.viewer_token t).0 ≡ some st.next)
      × ((reserve s' c.session_id viewer_role c.viewer_token u).0 ≡ some st.next)
      × ((reserve s' c.session_id agent_role token u).0 ≡ none)
unfolding create random_hex random_token added
create-reserve st b a w token now t u rb ra rv ht hu =
    let c : SessionCredentials = record {
      session_id = hex_encode b;
      agent_token = base64_encode a;
      viewer_token = base64_encode w;
    } in
    let valid = random_hex-valid b c.session_id rb refl in
    let viewer = random_token-ne w c.viewer_token rv refl in
    (
      c,
      added st c now,
      held st c now t,
      refl,
      reserve-added_agent st c now valid t (random_token-ne a c.agent_token ra refl) ht,
      reserve-added_viewer st c now valid t viewer ht,
      reserve-held_viewer st c now valid t u viewer hu,
      reserve-held_agent st c now t u token,
    )

-- What `Reserve` does to the store: nothing, or it changes the session that it hands out.
pub reserve-cases :
    (st : SessionStore) (id : Bytes) (role : RelayRole) (token : Bytes) (now : ℕ)
    → (reserve st id role token now ≡ (none, st))
      ⊎ ((p : ℕ) × (s : RelaySession) × (Session.reserve (st.heap p) role token now ≡ some s)
          × (reserve st id role token now ≡ (some p, record st { heap = update st.heap p s })))
unfolding reserve
reserve-cases st id role token now =
    elim (Bool-cases (not (valid_session_id id) || is_empty token)) [
      | inl refused ↦ inl (rw refused)
      | inr formed ↦ elim (Option-cases (lookup id st.sessions)) [
        | inl e ↦ inl (rw (formed, e))
        | inr (p, e) ↦ elim (Option-cases (Session.reserve (st.heap p) role token now)) [
          | inl f ↦ inl (rw (formed, e, f))
          | inr (s, f) ↦ inr (p, s, f, rw (formed, e, f))
        ]
      ]
    ]
