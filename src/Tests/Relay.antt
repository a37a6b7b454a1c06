-- ===== src/Tests/Relay.antt =====
-- The relay's theorems at a store with one session, and at short runs.
use ahlyx_labs.Common.{
  ℕ, zero, suc, ◌+◌, ◌*◌, ◌≤◌, ◌≡◌, ◌≢◌, refl, ◌↔◌, true, Option, none, some, List, [], ◌∷◌, Bytes,
  str, str_eq_iff, str_eq_refl, arith, second, hour,
}
use ahlyx_labs.Common.Assoc.{lookup}
use ahlyx_labs.Relay.Encoding.{valid_session_id}
use ahlyx_labs.Relay.Session.{
  RelaySession, agent_role, viewer_role, new_session, is_expired, run, Call, reserve,
}
use ahlyx_labs.Relay.Session.Invariant.{IsBounded, run-new-IsBounded}
use ahlyx_labs.Relay.Session.Expiry.{run_expires}
use ahlyx_labs.Relay.Session.Binding.{Admits, is_bound, grants, undos, one_if, grants-le}
use ahlyx_labs.Relay.Store as Store
use ahlyx_labs.Relay.Store.{SessionStore, Request, new_store, create}
use ahlyx_labs.Relay.Store.Invariant.{IsSound}
use ahlyx_labs.Relay.Store.Refinement.{view, spec_step, resolve, view-step}
use ahlyx_labs.Relay.Store.Access.{reserve-eq-some_iff}
use ahlyx_labs.Relay.Endpoint as Endpoint
use ahlyx_labs.Relay.Endpoint.{Created}
use ahlyx_labs.Telemetry.{connected}
use ahlyx_labs.Relay.Store.Revocation.{reserve-remove}

-- An agent's session in use.
abbrev traffic : List Call
traffic =
    Call.reserves agent_role (str "agent") (2 * second)
    ∷ Call.sets_agent 7 (2 * second)
    ∷ Call.forwards (str "frame") (3 * second)
    ∷ Call.sets_browser 8 (4 * second)
    ∷ []

run-new-IsBounded_example :
    IsBounded (run (new_session (str "agent") (str "viewer") second) traffic)
run-new-IsBounded_example = run-new-IsBounded (str "agent") (str "viewer") second traffic

abbrev pub fresh : RelaySession
fresh = new_session (str "agent") (str "viewer") second

run_expires_example :
    (is_expired (run fresh traffic) (4 * hour) ≡ true)
    × (reserve (run fresh traffic) viewer_role (str "viewer") (4 * hour) ≡ none)
run_expires_example = run_expires fresh traffic (4 * hour) viewer_role (str "viewer") (omega arith)

grants-le_example :
    grants agent_role fresh traffic + one_if (is_bound fresh agent_role)
    ≤ 1 + undos agent_role fresh traffic
grants-le_example = grants-le agent_role fresh traffic

abbrev pub id : Bytes
id = str "00112233445566778899aabbccddeeff"

-- A store with one session.
abbrev pub stocked : SessionStore
stocked = record { sessions = (id, 0) ∷ []; heap = λ p. fresh; next = 1 }

pub stocked-IsSound : IsSound stocked
unfolding lookup
stocked-IsSound = record {
  distinct = (refl, tt);
  below = λ j p h. ground arith;
  owned = λ j k p h g. ground (arith, str_eq_iff id j, str_eq_iff id k);
}

pub stocked-id : lookup id stocked.sessions ≡ some 0
unfolding lookup
stocked-id = rw (str_eq_refl id) refl

view-step_example :
    IsSound (Store.step stocked (Request.removes id))
    × (view (Store.step stocked (Request.removes id)) id
        ≡ spec_step (view stocked) (resolve stocked.sessions) (Request.removes id) id)
view-step_example = view-step stocked (Request.removes id) id stocked-IsSound

reserve-eq-some_iff_example :
    ((Store.reserve stocked id agent_role (str "agent") (2 * second)).0 ≡ some 0) ↔ (
      (valid_session_id id ≡ true)
      × (str "agent" ≢ [])
      × (lookup id stocked.sessions ≡ some 0)
      × Admits (stocked.heap 0) agent_role (str "agent") (2 * second))
reserve-eq-some_iff_example = reserve-eq-some_iff stocked id agent_role (str "agent") (2 * second) 0

abbrev bytes : ℕ → ℕ → Bytes
bytes b zero = []
bytes b (suc n) = b ∷ bytes b n

abbrev opened : Option Bytes → ℕ → Created
opened id now =
    Endpoint.new_session (new_store λ p. fresh) connected id (some (bytes 2 32)) (some (bytes 3 32))
      now

-- What others may do in between: another session's end, a cleanup, and traffic on the old pointer.
abbrev between : List Request
between =
    Request.reserves id viewer_role (str "viewer") (2 * second)
    ∷ Request.cleans (3 * second)
    ∷ Request.calls 0 (Call.touches (3 * second))
    ∷ []

reserve-remove_example :
    (Store.reserve
      (Store.run (Store.remove stocked id) between)
      id
      agent_role
      (str "agent")
      (4 * second)).0
    ≡ none
reserve-remove_example =
    reserve-remove stocked id between agent_role (str "agent") (4 * second) stocked-IsSound
      (tt, (tt, (tt, tt)))
