-- ===== src/Relay/Session/Binding.antt =====
-- Who may bind a role of a session, and how often.
use ahlyx_labs.Common.{
  ℕ, ◌+◌, ◌-◌, ◌≤◌, ◌≡◌, refl, ◌↔◌, Bool, true, false, Option, none, some, List, [], ◌∷◌, Bytes,
  arith, str_eq_iff, str_eq_refl, is_some, if◌then◌else◌,
}
use ahlyx_labs.Relay.Session.{
  RelaySession, RelayRole, agent_role, viewer_role, other_role, Call, reserves, releases, forwards,
  step, run, reserve, equal_secret, session_ttl,
}

pub equal_secret_iff : (s t : Bytes) → (equal_secret s t ≡ true) ↔ (s ≡ t)
unfolding equal_secret
equal_secret_iff s t =
    (λ h. ground (arith, str_eq_iff s t), λ e. rw e (ground (arith, str_eq_refl t)))

-- The secret and the binding flag of a role.
abbrev pub HasToken : RelaySession → RelayRole → Bytes → Type 0
HasToken s agent_role token = token ≡ s.agent_token
HasToken s viewer_role token = token ≡ s.viewer_token
HasToken s other_role token = ⊥

abbrev pub is_bound : RelaySession → RelayRole → Bool
is_bound s agent_role = s.agent_bound
is_bound s viewer_role = s.viewer_bound
is_bound s other_role = true

abbrev pub bound : RelaySession → RelayRole → ℕ → RelaySession
bound s agent_role now = record s { agent_bound = true; last_used = now }
bound s viewer_role now = record s { viewer_bound = true; last_used = now }
bound s other_role now = s

abbrev pub Admits : RelaySession → RelayRole → Bytes → ℕ → Type 0
Admits s role token now =
    (now - s.created ≤ session_ttl) × (is_bound s role ≡ false) × HasToken s role token

-- A reservation succeeds exactly when the session is no older than its time to live, the role is
-- one of the two and not bound yet, and the token is the role's; it then binds this role only and
-- stamps the time.
pub reserve_iff :
    (s t : RelaySession) (role : RelayRole) (token : Bytes) (now : ℕ)
    → (reserve s role token now ≡ some t) ↔ (Admits s role token now × (t ≡ bound s role now))
unfolding reserve
reserve_iff s t agent_role token now = (
  λ h. ground (arith, equal_secret_iff token s.agent_token),
  λ h. ground (arith, equal_secret_iff token s.agent_token),
)
reserve_iff s t viewer_role token now = (
  λ h. ground (arith, equal_secret_iff token s.viewer_token),
  λ h. ground (arith, equal_secret_iff token s.viewer_token),
)
reserve_iff s t other_role token now = (λ h. ground arith, λ h. ground arith)

-- How many reservations of a role succeed in a history, and how many of its releases take effect.
abbrev pub one_if : Bool → ℕ
one_if true = 1
one_if false = 0

abbrev same_role : RelayRole → RelayRole → Bool
same_role agent_role agent_role = true
same_role viewer_role viewer_role = true
same_role other_role other_role = true
same_role _ _ = false

abbrev grant : RelayRole → RelaySession → Call → ℕ
grant role s (reserves r token now) =
    if same_role role r then one_if (is_some (reserve s r token now)) else 0
grant role s _ = 0

abbrev pub connection : RelaySession → RelayRole → Option ℕ
connection s agent_role = s.agent
connection s viewer_role = s.browser
connection s other_role = none

-- A release counts if the role is bound and has no connection.
abbrev undo : RelayRole → RelaySession → Call → ℕ
undo role s (releases r) =
    if same_role role r
    then (if is_some (connection s role) then 0 else one_if (is_bound s role))
    else 0
undo role s _ = 0

pub grants : RelayRole → RelaySession → List Call → ℕ
grants role s [] = 0
grants role s (c ∷ cs) = grant role s c + grants role (step s c) cs

pub undos : RelayRole → RelaySession → List Call → ℕ
undos role s [] = 0
undos role s (c ∷ cs) = undo role s c + undos role (step s c) cs

step-grant_agent :
    (s : RelaySession) (c : Call)
    → grant agent_role s c + one_if s.agent_bound
      ≡ one_if (step s c).agent_bound + undo agent_role s c
unfolding step
step-grant_agent s (reserves agent_role token now) = ground arith
step-grant_agent s (reserves viewer_role token now) = ground arith
step-grant_agent s (reserves other_role token now) = ground arith
step-grant_agent s (releases agent_role) = ground arith
step-grant_agent s (releases viewer_role) = ground arith
step-grant_agent s (releases other_role) = ground arith
step-grant_agent s (forwards msg now) = ground arith
step-grant_agent s _ = ground arith

step-grant_viewer :
    (s : RelaySession) (c : Call)
    → grant viewer_role s c + one_if s.viewer_bound
      ≡ one_if (step s c).viewer_bound + undo viewer_role s c
unfolding step
step-grant_viewer s (reserves agent_role token now) = ground arith
step-grant_viewer s (reserves viewer_role token now) = ground arith
step-grant_viewer s (reserves other_role token now) = ground arith
step-grant_viewer s (releases agent_role) = ground arith
step-grant_viewer s (releases viewer_role) = ground arith
step-grant_viewer s (releases other_role) = ground arith
step-grant_viewer s (forwards msg now) = ground arith
step-grant_viewer s _ = ground arith

grants_agent :
    (s : RelaySession) (cs : List Call)
    → grants agent_role s cs + one_if s.agent_bound
      ≡ one_if (run s cs).agent_bound + undos agent_role s cs
unfolding run grants undos
grants_agent s [] = omega arith
grants_agent s (c ∷ cs) = omega (arith, step-grant_agent s c, grants_agent (step s c) cs)

grants_viewer :
    (s : RelaySession) (cs : List Call)
    → grants viewer_role s cs + one_if s.viewer_bound
      ≡ one_if (run s cs).viewer_bound + undos viewer_role s cs
unfolding run grants undos
grants_viewer s [] = omega arith
grants_viewer s (c ∷ cs) = omega (arith, step-grant_viewer s c, grants_viewer (step s c) cs)

one_if-le : (b : Bool) → one_if b ≤ 1
one_if-le true = omega arith
one_if-le false = omega arith

grants_other : (s : RelaySession) (cs : List Call) → grants other_role s cs ≡ 0
unfolding grants reserve
grants_other s [] = refl
grants_other s (reserves agent_role token now ∷ cs) =
    ground (arith, grants_other (step s (reserves agent_role token now)) cs)
grants_other s (reserves viewer_role token now ∷ cs) =
    ground (arith, grants_other (step s (reserves viewer_role token now)) cs)
grants_other s (reserves other_role token now ∷ cs) =
    ground (arith, grants_other (step s (reserves other_role token now)) cs)
grants_other s (c ∷ cs) = ground (arith, grants_other (step s c) cs)

-- In any history of calls a role is reserved at most once more often than a release of it, while
-- it is bound and has no connection, gives the reservation back; and never while it is bound from
-- the start, unless so given back. A string that is no role is never reserved.
pub grants-le :
    (role : RelayRole) (s : RelaySession) (cs : List Call)
    → grants role s cs + one_if (is_bound s role) ≤ 1 + undos role s cs
grants-le agent_role s cs = omega (arith, grants_agent s cs, one_if-le (run s cs).agent_bound)
grants-le viewer_role s cs = omega (arith, grants_viewer s cs, one_if-le (run s cs).viewer_bound)
grants-le other_role s cs = omega (arith, grants_other s cs)
