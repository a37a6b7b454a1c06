-- ===== src/Relay/Session/Expiry.antt =====
-- How long a session lives.
use ahlyx_labs.Common.{ℕ, ◌+◌, ◌<◌, ◌≡◌, refl, true, none, List, [], ◌∷◌, ◌∙◌, Bytes, arith}
use ahlyx_labs.Relay.Session.{
  RelaySession, RelayRole, agent_role, viewer_role, other_role, Call, reserves, releases, forwards,
  step, run, reserve, is_expired, session_ttl,
}

step-created : (s : RelaySession) (c : Call) → (step s c).created ≡ s.created
unfolding step
step-created s (reserves agent_role token now) = ground arith
step-created s (reserves viewer_role token now) = ground arith
step-created s (reserves other_role token now) = ground arith
step-created s (releases agent_role) = ground arith
step-created s (releases viewer_role) = ground arith
step-created s (releases other_role) = ground arith
step-created s (forwards msg now) = ground arith
step-created s _ = refl

run-created : (s : RelaySession) (cs : List Call) → (run s cs).created ≡ s.created
unfolding run
run-created s [] = refl
run-created s (c ∷ cs) = run-created (step s c) cs ∙ step-created s c

-- No traffic prolongs a session: whatever calls it has received, more than the time to live after
-- its creation it is expired, and no role can be reserved with any token.
pub run_expires :
    (s : RelaySession) (cs : List Call) (now : ℕ) (role : RelayRole) (token : Bytes)
    → session_ttl + s.created < now
    → (is_expired (run s cs) now ≡ true) × (reserve (run s cs) role token now ≡ none)
unfolding is_expired reserve
run_expires s cs now role token h = ground (arith, run-created s cs)
