-- ===== src/Relay/Handler/Lifecycle.antt =====
-- What a relay connection leaves behind when it ends, and what a viewer can do while it lasts.
use ahlyx_labs.Common.{
  ℕ, ◌≡◌, refl, ◌∙◌, subst, inl, inr, false, Option, none, some, List, [], ◌∷◌, Bytes, arith,
  str_eq, str_eq_iff, Option-cases, Bool-cases, if◌then◌else◌, ◌==◌, ==_iff,
}
use ahlyx_labs.Common.Assoc.{lookup}
use ahlyx_labs.Relay.Session.{RelaySession}
use ahlyx_labs.Relay.Session
use ahlyx_labs.Relay.Store.{SessionStore, remove, call_at, removes, step}
use ahlyx_labs.Relay.Store.Invariant.{IsSound}
use ahlyx_labs.Relay.Store.Refinement.{view, view-step, spec_step}
use ahlyx_labs.Relay.Handler.Admission.{SameButUse}
use ahlyx_labs.Relay.Handler.{
  Message, serve, agent_handle, browser_handle, relay_agent, relay_browser, text_message,
  close_message,
}

-- `u` differs from `t` at most in the session at `p`.
record IsLocal (p : ℕ) (t u : SessionStore) : Type 0 where
  map : u.sessions ≡ t.sessions
  next : u.next ≡ t.next
  heap : (q : ℕ) → (q == p) ≡ false → u.heap q ≡ t.heap q

IsLocal-refl : (p : ℕ) (t : SessionStore) → IsLocal p t t
IsLocal-refl p t = record { map = refl; next = refl; heap = λ q h. refl }

IsLocal-trans : (p : ℕ) (t u w : SessionStore) → IsLocal p t u → IsLocal p u w → IsLocal p t w
IsLocal-trans p t u w a b = record {
  map = b.map ∙ a.map;
  next = b.next ∙ a.next;
  heap = λ q h. b.heap q h ∙ a.heap q h;
}

call_at-IsLocal : (p : ℕ) (t : SessionStore) (c : Session.Call) → IsLocal p t (call_at t p c)
unfolding call_at
call_at-IsLocal p t c = record { map = refl; next = refl; heap = λ q h. rw h }

serve-IsLocal :
    (handle : SessionStore → Message → Option SessionStore) (p : ℕ)
    → ((t u : SessionStore) (m : Message) → handle t m ≡ some u → IsLocal p t u)
    → (t : SessionStore) (ms : List Message) → IsLocal p t (serve handle p t ms)
unfolding serve
serve-IsLocal handle p keep t [] = IsLocal-refl p t
serve-IsLocal handle p keep t (m ∷ ms) = elim (Option-cases (handle t m)) [
  | inl e ↦ rw (e, serve) (IsLocal-refl p t)
  | inr (u, e) ↦
      let touched = call_at u p (Session.Call.touches m.2) in
      rw (e, serve)
        (IsLocal-trans p t u _ (keep t u m e) (
          IsLocal-trans p u touched _ (call_at-IsLocal p u _)
            (serve-IsLocal handle p keep touched ms)))
]

agent_handle-IsLocal :
    (p : ℕ) (t u : SessionStore) (m : Message) → agent_handle p t m ≡ some u → IsLocal p t u
unfolding agent_handle
agent_handle-IsLocal p t u m h = elim (Bool-cases (m.0 == text_message)) [
  | inl text ↦
      subst (IsLocal p t) (ground arith) (call_at-IsLocal p t (Session.Call.forwards m.1 m.2))
  | inr other ↦ ground arith
]

browser_handle-IsLocal :
    (p : ℕ) (t u : SessionStore) (m : Message) → browser_handle t m ≡ some u → IsLocal p t u
unfolding browser_handle
browser_handle-IsLocal p t u m h = elim (Bool-cases (m.0 == close_message)) [
  | inl text ↦ subst (IsLocal p t) (ground arith) (IsLocal-refl p t)
  | inr other ↦ ground arith
]

IsLocal-IsSound : {p : ℕ} {t u : SessionStore} → IsLocal p t u → IsSound t → IsSound u
IsLocal-IsSound l v = record {
  distinct = rw l.map v.distinct;
  below = rw (l.map, l.next) v.below;
  owned = rw l.map v.owned;
}

IsLocal-view :
    (p : ℕ) (t u : SessionStore) (id j : Bytes)
    → IsLocal p t u
    → IsSound t
    → lookup id t.sessions ≡ some p
    → str_eq id j ≡ false
    → view u j ≡ view t j
unfolding view
IsLocal-view p t u id j l v e other = elim (Option-cases (lookup j t.sessions)) [
  | inl f ↦ ground (arith, l.map)
  | inr (q, f) ↦ ground (arith, l.map, l.heap q, v.owned id j p, str_eq_iff id j, ==_iff q p)
]

ended-view :
    (p : ℕ) (t u : SessionStore) (id j : Bytes)
    → IsLocal p t u
    → IsSound t
    → lookup id t.sessions ≡ some p
    → view (remove u id) j ≡ (if str_eq id j then none else view t j)
unfolding spec_step step
ended-view p t u id j l v e = elim (Bool-cases (str_eq id j)) [
  | inl same ↦ rw same (ground (arith, (view-step u (removes id) j (IsLocal-IsSound l v)).1))
  | inr other ↦ rw other (
      ground (
        arith,
        (view-step u (removes id) j (IsLocal-IsSound l v)).1,
        IsLocal-view p t u id j l v e other,
      ))
]

-- However an agent's connection ends, and whatever it sent, its session is then gone from the
-- store, and the store maps every other identifier to the same session as before.
pub relay_agent-view :
    (st : SessionStore) (p conn now : ℕ) (id j : Bytes) (ms : List Message)
    → IsSound st
    → lookup id st.sessions ≡ some p
    → view (relay_agent st p id conn now ms) j ≡ (if str_eq id j then none else view st j)
unfolding relay_agent
relay_agent-view st p conn now id j ms v e =
    let attached = call_at st p (Session.Call.sets_agent conn now) in
    ended-view p st (serve (agent_handle p) p attached ms) id j
      (IsLocal-trans p st attached _ (call_at-IsLocal p st _)
        (serve-IsLocal (agent_handle p) p (agent_handle-IsLocal p) attached ms))
      v e

-- However a viewer's connection ends, and whatever it sent, its session is then gone from the store,
-- and the store maps every other identifier to the same session as before.
pub relay_browser-view :
    (st : SessionStore) (p conn now : ℕ) (id j : Bytes) (ms : List Message)
    → IsSound st
    → lookup id st.sessions ≡ some p
    → view (relay_browser st p id conn now ms) j ≡ (if str_eq id j then none else view st j)
unfolding relay_browser
relay_browser-view st p conn now id j ms v e =
    let attached = call_at st p (Session.Call.sets_browser conn now) in
    ended-view p st (serve browser_handle p attached ms) id j
      (IsLocal-trans p st attached _ (call_at-IsLocal p st _)
        (serve-IsLocal browser_handle p (browser_handle-IsLocal p) attached ms))
      v e

touched :
    (st : SessionStore) (p q now : ℕ)
    → SameButUse ((call_at st p (Session.Call.touches now)).heap q) (st.heap q)
unfolding call_at Session.step
touched st p q now = elim (Bool-cases (q == p)) [
  | inl same ↦ rw (same, (==_iff q p).0 same)
  | inr other ↦ rw other
]

-- The viewer is receive-only: whatever it sends, its read loop leaves the map and every session as
-- they were but for the time of the last use.
pub serve-browser_handle :
    (st : SessionStore) (p q : ℕ) (ms : List Message)
    → let u = serve browser_handle p st ms in
      (u.sessions ≡ st.sessions) × SameButUse (u.heap q) (st.heap q)
unfolding serve browser_handle call_at Session.step
serve-browser_handle st p q [] = (refl, refl)
serve-browser_handle st p q (m ∷ ms) =
    let ih = serve-browser_handle (call_at st p (Session.Call.touches m.2)) p q ms in
    elim (Bool-cases (m.0 == close_message)) [
      | inl close ↦ rw (close, serve, browser_handle) (ih.0, ih.1 ∙ touched st p q m.2)
      | inr other ↦ rw (other, serve, browser_handle) (refl, refl)
    ]
