-- ===== src/Relay/Store/Revocation.antt =====
-- What the store has dropped stays unreachable.
use ahlyx_labs.Common.{
  ℕ, ◌≡◌, true, none, some, List, [], ◌∷◌, Bytes, All, arith, str_eq_iff, str_eq_refl, Option-cases,
  inl, inr,
}
use ahlyx_labs.Common.Assoc.{lookup}
use ahlyx_labs.Relay.Session.{RelayRole, is_expired}
use ahlyx_labs.Relay.Store.{
  SessionStore, reserve, remove, cleanup, Request, creates, reserves, removes, cleans, calls, step,
  run,
}
use ahlyx_labs.Relay.Store.Invariant.{IsSound, step-IsSound}
use ahlyx_labs.Relay.Store.Refinement.{view, view-step, spec_step, resolve}

-- A request other than `Create`.
abbrev pub IsNoCreate : Request → Type 0
IsNoCreate (creates id agent viewer now) = ⊥
IsNoCreate _ = Unit {0}

step-gone :
    (st : SessionStore) (r : Request) (id : Bytes)
    → IsSound st
    → IsNoCreate r
    → view st id ≡ none
    → view (step st r) id ≡ none
unfolding spec_step
step-gone st (creates id' agent viewer now) id v n h = elim n [ ]
step-gone st (reserves id' role token now) id v n h =
    ground (arith, (view-step st (reserves id' role token now) id v).1, str_eq_iff id' id)
step-gone st (removes id') id v n h = ground (arith, (view-step st (removes id') id v).1)
step-gone st (cleans now) id v n h = ground (arith, (view-step st (cleans now) id v).1)
step-gone st (calls p c) id v n h = elim (Option-cases (resolve st.sessions p)) [
  | inl e ↦ ground (arith, (view-step st (calls p c) id v).1)
  | inr (k, e) ↦ ground (arith, (view-step st (calls p c) id v).1, str_eq_iff k id)
]

run-gone :
    (st : SessionStore) (rs : List Request) (id : Bytes)
    → IsSound st
    → All IsNoCreate rs
    → view st id ≡ none
    → view (run st rs) id ≡ none
unfolding run
run-gone st [] id v n h = h
run-gone st (r ∷ rs) id v n h =
    run-gone (step st r) rs id (step-IsSound st r v) n.1 (step-gone st r id v n.0 h)

gone-reserve :
    (st : SessionStore) (id : Bytes) (role : RelayRole) (token : Bytes) (now : ℕ)
    → view st id ≡ none
    → (reserve st id role token now).0 ≡ none
unfolding reserve view
gone-reserve st id role token now h = ground arith

module _ (st : SessionStore) (id : Bytes) (rs : List Request) (role : RelayRole) (token : Bytes)
    (now : ℕ) (sound : IsSound st) (quiet : All IsNoCreate rs) where
  -- Once `Delete` was called for an identifier, no role of it is reserved with any token, whatever
  -- requests but `Create` come in between.
  pub reserve-remove : (reserve (run (remove st id) rs) id role token now).0 ≡ none
  unfolding spec_step step
  reserve-remove =
      let (after, gone) = view-step st (removes id) id sound in
      gone-reserve _ id role token now
        (run-gone (remove st id) rs id after quiet (ground (arith, str_eq_refl id)))

  -- Once a `cleanup` found the session of an identifier expired, no role of it is reserved with any
  -- token, whatever requests but `Create` come in between.
  pub reserve-cleanup :
      (p t : ℕ)
      → lookup id st.sessions ≡ some p
      → is_expired (st.heap p) t ≡ true
      → (reserve (run (cleanup st t) rs) id role token now).0 ≡ none
  unfolding spec_step step view
  reserve-cleanup p t e expired =
      let (after, gone) = view-step st (cleans t) id sound in
      gone-reserve _ id role token now (run-gone (cleanup st t) rs id after quiet (ground arith))
