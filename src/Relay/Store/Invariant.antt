-- ===== src/Relay/Store/Invariant.antt =====
-- The store's map and heap: one entry for each identifier, one session for each entry.
use ahlyx_labs.Common.{
  ℕ, suc, ◌<◌, ◌≡◌, Bool, Option, some, List, [], ◌∷◌, Bytes, arith, str_eq_iff, Option-cases, inl,
  inr,
}
use ahlyx_labs.Common.Assoc.{
  Table, lookup, insert, delete, sweep, Distinct, lookup-insert, lookup-delete, lookup-sweep,
  insert-Distinct, delete-Distinct, sweep-Distinct,
}
use ahlyx_labs.Relay.Encoding.{random_hex, random_token}
use ahlyx_labs.Relay.Session.{RelaySession, is_expired}
use ahlyx_labs.Relay.Session
use ahlyx_labs.Relay.Store.{
  SessionStore, SessionCredentials, create, reserve, Request, creates, reserves, removes, cleans,
  calls, step, run, add_session,
}

-- Every entry's address lies below `next`, and no two identifiers share one.
pub record IsSound (st : SessionStore) : Type 0 where
  pub distinct : Distinct st.sessions
  pub below : (j : Bytes) (p : ℕ) → lookup j st.sessions ≡ some p → p < st.next
  pub owned :
      (j k : Bytes) (p : ℕ) → lookup j st.sessions ≡ some p → lookup k st.sessions ≡ some p → j ≡ k

-- What `IsSound` says of a map and a bound.
abbrev SoundMap : Table ℕ → ℕ → Type 0
SoundMap m n =
    Distinct m
    × ((j : Bytes) (p : ℕ) → lookup j m ≡ some p → p < n)
    × ((j k : Bytes) (p : ℕ) → lookup j m ≡ some p → lookup k m ≡ some p → j ≡ k)

insert-SoundMap :
    (id : Bytes) (m : Table ℕ) (n : ℕ) → SoundMap m n → SoundMap (insert id n m) (suc n)
insert-SoundMap id m n v = (
  insert-Distinct id n m v.0,
  λ j p h. ground (arith, lookup-insert id j n m, v.1 j p),
  λ j k p h g. ground (
    arith,
    lookup-insert id j n m,
    lookup-insert id k n m,
    str_eq_iff id j,
    str_eq_iff id k,
    v.1 j p,
    v.1 k p,
    v.2 j k p,
  ),
)

delete-SoundMap : (id : Bytes) (m : Table ℕ) (n : ℕ) → SoundMap m n → SoundMap (delete id m) n
delete-SoundMap id m n v = (
  delete-Distinct id m v.0,
  λ j p h. ground (arith, lookup-delete id j m, v.1 j p),
  λ j k p h g. ground (arith, lookup-delete id j m, lookup-delete id k m, v.2 j k p),
)

sweep-SoundMap : (f : ℕ → Bool) (m : Table ℕ) (n : ℕ) → SoundMap m n → SoundMap (sweep f m) n
sweep-SoundMap f m n v = (
  sweep-Distinct f m v.0,
  λ j p h. ground (arith, lookup-sweep f j m v.0, v.1 j p),
  λ j k p h g. ground (arith, lookup-sweep f j m v.0, lookup-sweep f k m v.0, v.2 j k p),
)

to_map : {st : SessionStore} → IsSound st → SoundMap st.sessions st.next
to_map v = (v.distinct, v.below, v.owned)

of_map : {st : SessionStore} → SoundMap st.sessions st.next → IsSound st
of_map v = record { distinct = v.0; below = v.1; owned = v.2 }

-- A property of the store's state after `create`: it has not changed, or it has a new session.
create-elim {ℓ} :
    (P : SessionStore → Type ℓ) (st : SessionStore) (id agent viewer : Option Bytes) (now : ℕ)
    → P st
    → ((c : SessionCredentials) → P (add_session st c now))
    → P (create st id agent viewer now).1
unfolding create
create-elim P st id agent viewer now same added = elim (Option-cases (random_hex id)) [
  | inl e ↦ rw (e, create) same
  | inr (i, e) ↦ elim (Option-cases (random_token agent)) [
    | inl f ↦ rw (e, f, create) same
    | inr (a, f) ↦ elim (Option-cases (random_token viewer)) [
      | inl g ↦ rw (e, f, g, create) same
      | inr (v, g) ↦
          rw (e, f, g, create)
            (added (record { session_id = i; agent_token = a; viewer_token = v }))
    ]
  ]
]

reserve-sessions :
    (st : SessionStore) (id : Bytes) (role : Session.RelayRole) (token : Bytes) (now : ℕ)
    → ((reserve st id role token now).1.sessions ≡ st.sessions)
      × ((reserve st id role token now).1.next ≡ st.next)
unfolding reserve
reserve-sessions st id role token now = ground arith

pub step-IsSound : (st : SessionStore) (r : Request) → IsSound st → IsSound (step st r)
unfolding step
step-IsSound st (creates id agent viewer now) v =
    create-elim IsSound st id agent viewer now v
      λ c. of_map (insert-SoundMap c.session_id st.sessions st.next (to_map v))
step-IsSound st (reserves id role token now) v =
    let (m, n) = reserve-sessions st id role token now in of_map (rw (m, n) (to_map v))
step-IsSound st (removes id) v = of_map (delete-SoundMap id st.sessions st.next (to_map v))
step-IsSound st (cleans now) v = of_map (sweep-SoundMap _ st.sessions st.next (to_map v))
step-IsSound st (calls p c) v = of_map (to_map v)

run-IsSound : (st : SessionStore) (rs : List Request) → IsSound st → IsSound (run st rs)
unfolding run
run-IsSound st [] v = v
run-IsSound st (r ∷ rs) v = run-IsSound (step st r) rs (step-IsSound st r v)
