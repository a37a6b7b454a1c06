-- ===== src/Relay/Handler/Admission.antt =====
-- Who is admitted to a relay, and what a refused or failed request leaves behind.
use ahlyx_labs.Common.{
  ℕ, ◌≡◌, ◌≢◌, ◌↔◌, ◌⊎◌, refl, inl, inr, Bool, true, false, ◌&&◌, not, none, some, List, [], ◌∷◌,
  ◌++◌, Bytes, arith, str, str_eq, str_eq_iff, strip_prefix, strip_prefix_sound,
  strip_prefix-append, Option-cases, Bool-cases, is_some, ◌==◌, ==_iff,
}
use ahlyx_labs.Relay.Session.{RelaySession, RelayRole, agent_role, viewer_role, other_role}
use ahlyx_labs.Relay.Session
use ahlyx_labs.Relay.Store.{SessionStore, is_empty, reserve, call_at, update}
use ahlyx_labs.Relay.Store.Access.{reserve-cases}
use ahlyx_labs.Relay.Handler.{
  RelayRequest, browser_protocol, is_viewer_origin, relay_credentials, viewer_credentials,
  relays_agent, relays_browser, upgrade, admit, handle_relay, is_viewer,
}

abbrev pub bearer : Bytes
bearer = str "Bearer "

is_viewer_origin_iff :
    (origin : Bytes)
    → (is_viewer_origin origin ≡ true)
      ↔ ((origin ≡ str "https://ahlyxlabs.com") ⊎ (origin ≡ str "https://www.ahlyxlabs.com"))
unfolding is_viewer_origin
is_viewer_origin_iff origin = (
  λ h. ground (
    arith,
    str_eq_iff origin (str "https://ahlyxlabs.com"),
    str_eq_iff origin (str "https://www.ahlyxlabs.com"),
  ),
  λ h. ground (
    arith,
    str_eq_iff origin (str "https://ahlyxlabs.com"),
    str_eq_iff origin (str "https://www.ahlyxlabs.com"),
  ),
)

is_empty_iff : (token : Bytes) → (not (is_empty token) ≡ true) ↔ (token ≢ [])
is_empty_iff [] = (λ h. cc, λ h. absurd (h refl))
is_empty_iff (b ∷ s) = (λ h e. cc, λ h. refl)

module _ (st : SessionStore) (r : RelayRequest) (upgraded : Bool) (now : ℕ) where
  admit-agent :
      (token : Bytes) (p : ℕ)
      → ((admit st r upgraded now (agent_role, token, not (is_empty token))).0 ≡ relays_agent p) ↔ (
          (upgraded ≡ true)
          × (token ≢ [])
          × ((reserve st r.session_id agent_role token now).0 ≡ some p))
  unfolding admit
  admit-agent token p = elim (Option-cases (reserve st r.session_id agent_role token now).0) [
    | inl e ↦ (λ h. ground arith, λ h. ground arith)
    | inr (q, e) ↦
        (λ h. ground (arith, is_empty_iff token), λ h. ground (arith, is_empty_iff token))
  ]

  admit-viewer :
      (token : Bytes) (p : ℕ)
      → ((admit st r upgraded now (viewer_role, token, true)).0 ≡ relays_browser p) ↔ (
          (upgraded ≡ true)
          × (is_viewer_origin r.origin ≡ true)
          × ((reserve st r.session_id viewer_role token now).0 ≡ some p))
  unfolding admit
  admit-viewer token p = elim (Option-cases (reserve st r.session_id viewer_role token now).0) [
    | inl e ↦ (λ h. ground arith, λ h. ground arith)
    | inr (q, e) ↦ (λ h. ground arith, λ h. ground arith)
  ]

  admit-agent_ne :
      (token : Bytes) (ok : Bool) (p : ℕ)
      → (admit st r upgraded now (agent_role, token, ok)).0 ≢ relays_browser p
  unfolding admit
  admit-agent_ne token ok p h =
      elim (Option-cases (reserve st r.session_id agent_role token now).0) [
        | inl e ↦ ground arith
        | inr (q, e) ↦ ground arith
      ]

  admit-viewer_ne :
      (token : Bytes) (ok : Bool) (p : ℕ)
      → (admit st r upgraded now (viewer_role, token, ok)).0 ≢ relays_agent p
  unfolding admit
  admit-viewer_ne token ok p h =
      elim (Option-cases (reserve st r.session_id viewer_role token now).0) [
        | inl e ↦ ground arith
        | inr (q, e) ↦ ground arith
      ]

-- The protocols offer a viewer's token, or they are no credentials.
viewer_credentials-cases :
    (ps : List Bytes)
    → ((token : Bytes) × (ps ≡ browser_protocol ∷ token ∷ [])
        × (token ≢ [])
        × (viewer_credentials ps ≡ (viewer_role, token, true)))
      ⊎ (viewer_credentials ps ≡ (other_role, [], false))
viewer_credentials-cases [] = inr refl
viewer_credentials-cases (a ∷ []) = inr refl
viewer_credentials-cases (a ∷ b ∷ c ∷ ps) = inr refl
viewer_credentials-cases (a ∷ b ∷ []) =
    elim (Bool-cases (str_eq a browser_protocol && not (is_empty b))) [
      | inl h ↦
          inl
            (b, ground (arith, str_eq_iff a browser_protocol), ground (arith, is_empty_iff b), rw h)
      | inr h ↦ inr (rw h)
    ]

-- A connection relays as the agent exactly when the request was upgraded, and its Authorization
-- header is "Bearer " and a token, not empty, with which the store grants the agent's role of the
-- session that the route names.
pub handle_relay-agent_iff :
    (st : SessionStore) (r : RelayRequest) (upgraded : Bool) (now p : ℕ)
    → ((handle_relay st r upgraded now).0 ≡ relays_agent p) ↔ (
        (token : Bytes) × (r.authorization ≡ bearer ++ token)
        × (upgraded ≡ true)
        × (token ≢ [])
        × ((reserve st r.session_id agent_role token now).0 ≡ some p))
unfolding handle_relay relay_credentials
handle_relay-agent_iff st r upgraded now p = (
  λ h. elim (Option-cases (strip_prefix bearer r.authorization)) [
    | inl e ↦ elim (viewer_credentials-cases r.protocols) [
      | inl (token, ps, filled, c) ↦ absurd (
          admit-viewer_ne st r upgraded now token true p
            (rw (e, c, handle_relay, relay_credentials) at h))
      | inr c ↦ ground arith
    ]
    | inr (token, e) ↦
        let granted =
          (admit-agent st r upgraded now token p).0
            (rw (e, handle_relay, relay_credentials) at h) in
        (token, strip_prefix_sound bearer r.authorization token e, granted.0, granted.1, granted.2)
  ],
  λ (token, auth, up, filled, granted).
      rw (auth, strip_prefix-append bearer token, handle_relay, relay_credentials)
        ((admit-agent st r upgraded now token p).1 (up, filled, granted)),
)

-- A connection relays as the viewer exactly when the request was upgraded, comes from one of the
-- two production origins, has no Authorization header that begins with "Bearer ", and offers two
-- protocols: the relay's, and a token, not empty, with which the store grants the viewer's role.
pub handle_relay-viewer_iff :
    (st : SessionStore) (r : RelayRequest) (upgraded : Bool) (now p : ℕ)
    → ((handle_relay st r upgraded now).0 ≡ relays_browser p) ↔ (
        (token : Bytes) × (r.protocols ≡ browser_protocol ∷ token ∷ [])
        × (token ≢ [])
        × (strip_prefix bearer r.authorization ≡ none)
        × ((r.origin ≡ str "https://ahlyxlabs.com") ⊎ (r.origin ≡ str "https://www.ahlyxlabs.com"))
        × (upgraded ≡ true)
        × ((reserve st r.session_id viewer_role token now).0 ≡ some p))
unfolding handle_relay relay_credentials
handle_relay-viewer_iff st r upgraded now p = (
  λ h. elim (Option-cases (strip_prefix bearer r.authorization)) [
    | inr (token, e) ↦ absurd (
        admit-agent_ne st r upgraded now token (not (is_empty token)) p
          (rw (e, handle_relay, relay_credentials) at h))
    | inl e ↦ elim (viewer_credentials-cases r.protocols) [
      | inl (token, ps, filled, c) ↦
          let granted =
            (admit-viewer st r upgraded now token p).0
              (rw (e, c, handle_relay, relay_credentials) at h) in
          (token, ps, filled, e, (is_viewer_origin_iff r.origin).0 granted.1, granted.0, granted.2)
      | inr c ↦ ground arith
    ]
  ],
  λ (token, ps, filled, e, origin, up, granted).
      rw (e, ps, handle_relay, relay_credentials)
        (rw (offered token filled) (
          (admit-viewer st r upgraded now token p).1
            (up, (is_viewer_origin_iff r.origin).1 origin, granted))),
)
  where
    offered :
        (token : Bytes)
        → token ≢ []
        → viewer_credentials (browser_protocol ∷ token ∷ []) ≡ (viewer_role, token, true)
    offered token filled =
        ground (arith, is_empty_iff token, str_eq_iff browser_protocol browser_protocol)

-- A session but for the time of its last use.
abbrev pub SameButUse : RelaySession → RelaySession → Type 0
SameButUse s t = record s { last_used = 0 } ≡ record t { last_used = 0 }

-- No connection is set for a role that is not bound.
abbrev pub IsAttached : RelaySession → Type 0
IsAttached s =
    (is_some s.agent ≡ true → s.agent_bound ≡ true)
    × (is_some s.browser ≡ true → s.viewer_bound ≡ true)

reserve-release :
    (s t : RelaySession) (role : RelayRole) (token : Bytes) (now : ℕ)
    → IsAttached s
    → Session.reserve s role token now ≡ some t
    → SameButUse (Session.release t role) s
unfolding Session.reserve Session.release
reserve-release s t agent_role token now v h = ground arith
reserve-release s t viewer_role token now v h = ground arith
reserve-release s t other_role token now v h = ground arith

update_self : (h : ℕ → RelaySession) (p : ℕ) (s : RelaySession) → update h p s p ≡ s
update_self h p s = rw ((==_iff p p).1 refl)

update-restored :
    (h : ℕ → RelaySession) (p q : ℕ) (s t : RelaySession)
    → SameButUse t (h p)
    → SameButUse (update (update h p s) p t q) (h q)
update-restored h p q s t e = elim (Bool-cases (q == p)) [
  | inl same ↦ rw (same, (==_iff q p).0 same) e
  | inr other ↦ rw other
]

upgrade-failed :
    (st : SessionStore) (role : RelayRole) (id token : Bytes) (now q : ℕ)
    → ((p : ℕ) → IsAttached (st.heap p))
    → let (o, st') = upgrade role false (reserve st id role token now) in
      (st'.sessions ≡ st.sessions) × SameButUse (st'.heap q) (st.heap q)
unfolding upgrade call_at Session.step
upgrade-failed st role id token now q v = elim (reserve-cases st id role token now) [
  | inl e ↦ rw (e, upgrade) (refl, refl)
  | inr (p, s, f, e) ↦
      rw (e, upgrade)
        (rw (update_self st.heap p s) (
          refl,
          update-restored st.heap p q s (Session.release s role)
              (reserve-release (st.heap p) s role token now (v p) f),
        ))
]

-- A request that does not get as far as a relay, because it has no credentials, comes from another
-- origin, is refused by the store, or fails to be upgraded, leaves the map as it was and every
-- session as it was but for the time of its last use: its token is not spent. (No connection may
-- be set for a role that is not bound.)
pub handle_relay-unspent :
    (st : SessionStore) (r : RelayRequest) (now q : ℕ)
    → ((p : ℕ) → IsAttached (st.heap p))
    → let (o, st') = handle_relay st r false now in
      (st'.sessions ≡ st.sessions) × SameButUse (st'.heap q) (st.heap q)
unfolding handle_relay
handle_relay-unspent st r now q v =
    let c = relay_credentials r in
    elim (Bool-cases (not c.2)) [
      | inl anonymous ↦ rw (anonymous, handle_relay) (refl, refl)
      | inr known ↦ elim (Bool-cases (is_viewer c.0 && not (is_viewer_origin r.origin))) [
        | inl foreign ↦ rw (known, foreign, handle_relay) (refl, refl)
        | inr local ↦
            rw (known, local, handle_relay) (upgrade-failed st c.0 r.session_id c.1 now q v)
      ]
    ]
