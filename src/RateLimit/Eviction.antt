-- ===== src/RateLimit/Eviction.antt =====
-- Dropping unused buckets is not observable: the answers are those of a limiter that keeps all.
use ahlyx_labs.Common.{
  ℕ, ◌-◌, ◌≤◌, ◌≡◌, refl, sym, ap, subst, inl, inr, Bool, not, Option, none, some, List, [], ◌∷◌,
  Bytes, arith, leb, str_eq, if◌then◌else◌, minute, Bool-cases,
}
use mathlib.Core.Path.{ap₂}
use ahlyx_labs.Common.Assoc
use ahlyx_labs.Common.Assoc.{
  Table, lookup, insert, sweep, Distinct, lookup-insert, lookup-sweep, insert-Distinct,
  sweep-Distinct,
}
use ahlyx_labs.RateLimit.{
  Limiter, IpLimiter, RateLimiter, limiter_entry_ttl, expire, get_allow, limiter_of,
}

-- A limiter without eviction: for each client the state of its bucket, if it was ever asked.
abbrev pub Ledger : Type 0 → Type 0
Ledger L = Bytes → Option (IpLimiter L)

-- The requests' times do not fall.
abbrev pub IsTimely : ℕ → List (Bytes × ℕ) → Type 0
IsTimely t [] = Unit {0}
IsTimely t ((ip, now) ∷ rs) = (t ≤ now) × IsTimely now rs

module _ {L : Type 0} ⦃rate : Limiter L⦄ where
  unfoldable pub ledger_allow : Ledger L → Bytes → ℕ → Ledger L × Bool
  ledger_allow m ip now =
      let asked = rate.allow (limiter_of (m ip)) now in
      (
        λ j. if str_eq ip j then some (record { limiter = asked.0; last_seen = now }) else m j,
        asked.1,
      )

  -- The entry is there with the ledger's bucket, or was dropped long enough after its last use.
  pub data Agrees (kept ledger : Option (IpLimiter L)) (now : ℕ) : Type 0 where
    same : kept ≡ ledger → Agrees kept ledger now
    dropped :
        (e : IpLimiter L)
        → kept ≡ none
        → ledger ≡ some e
        → limiter_entry_ttl ≤ now - e.last_seen
        → Agrees kept ledger now

  -- Every bucket of the ledger was last asked when it says.
  pub data WasAsked (e : IpLimiter L) : Type 0 where
    asked : (l : L) → e.limiter ≡ (rate.allow l e.last_seen).0 → WasAsked e

  pub record Tracks (rl : RateLimiter L) (m : Ledger L) (now : ℕ) : Type 0 where
    pub distinct : Distinct rl.ips
    pub agrees : (j : Bytes) → Agrees (lookup j rl.ips) (m j) now
    pub was_asked : (j : Bytes) (e : IpLimiter L) → m j ≡ some e → WasAsked e

  later_Agrees :
      {kept ledger : Option (IpLimiter L)} {t now : ℕ}
      → t ≤ now
      → Agrees kept ledger t
      → Agrees kept ledger now
  later_Agrees h (same e) = same e
  later_Agrees h (dropped e k l d) = dropped e k l (omega arith)

  sweep_Agrees :
      (kept ledger : Option (IpLimiter L)) (now : ℕ)
      → Agrees kept ledger now
      → Agrees (Assoc.kept (λ e. not (leb limiter_entry_ttl (now - e.last_seen))) kept) ledger now
  sweep_Agrees kept ledger now (dropped e k l d) = dropped e (rw k) l d
  sweep_Agrees none ledger now (same e) = same e
  sweep_Agrees (some e) ledger now (same l) =
      elim (Bool-cases (leb limiter_entry_ttl (now - e.last_seen))) [
        | inl old ↦ dropped e (rw old) (sym l) (ground arith)
        | inr new ↦ rw new (same l)
      ]

  expire-Tracks :
      (rl : RateLimiter L) (m : Ledger L) (now : ℕ) → Tracks rl m now → Tracks (expire rl now) m now
  unfolding expire
  expire-Tracks rl m now v = elim (Bool-cases (leb minute (now - rl.last_cleanup))) [
    | inr recent ↦ rw recent v
    | inl due ↦
        let f = λ (e : IpLimiter L). not (leb limiter_entry_ttl (now - e.last_seen)) in
        rw due (record {
          distinct = sweep-Distinct f rl.ips v.distinct;
          agrees = λ j.
              rw (lookup-sweep f j rl.ips v.distinct)
                (sweep_Agrees (lookup j rl.ips) (m j) now (v.agrees j));
          was_asked = v.was_asked;
        })
  ]

  -- A dropped bucket would have been full, so a new one in its place answers the same.
  allow_same :
      (kept ledger : Option (IpLimiter L)) (now : ℕ)
      → Agrees kept ledger now
      → ((e : IpLimiter L) → ledger ≡ some e → WasAsked e)
      → rate.allow (limiter_of kept) now ≡ rate.allow (limiter_of ledger) now
  allow_same kept ledger now (same e) w = rw e
  allow_same kept ledger now (dropped e k l d) w = go (w e l)
    where
      go : WasAsked e → rate.allow (limiter_of kept) now ≡ rate.allow (limiter_of ledger) now
      go (asked b s) = rw (k, l, s) (sym (rate.refilled b e.last_seen now d))

  -- The client's bucket after it was asked, in the map and in the ledger.
  put-Tracks :
      (rl : RateLimiter L) (m : Ledger L) (ip : Bytes) (now : ℕ)
      → Tracks rl m now
      → let e : IpLimiter L = record {
        limiter = (rate.allow (limiter_of (m ip)) now).0;
        last_seen = now;
      } in
        Tracks
          (record rl { ips = insert ip e rl.ips })
          (λ j. if str_eq ip j then some e else m j)
          now
  put-Tracks rl m ip now v =
      let e : IpLimiter L = record {
        limiter = (rate.allow (limiter_of (m ip)) now).0;
        last_seen = now;
      } in
      record {
        distinct = insert-Distinct ip e rl.ips v.distinct;
        agrees = λ j. rw (lookup-insert ip j e rl.ips) (elim (Bool-cases (str_eq ip j)) [
          | inl own ↦ rw own (same refl)
          | inr other ↦ rw other (v.agrees j)
        ]);
        was_asked = λ j f h. elim (Bool-cases (str_eq ip j)) [
          | inl own ↦
              let found : some e ≡ some f = rw own at h in
              let p : e ≡ f = cc in subst WasAsked p (asked (limiter_of (m ip)) refl)
          | inr other ↦ v.was_asked j f (rw other at h)
        ];
      }

  get_allow-Tracks :
      (rl : RateLimiter L) (m : Ledger L) (ip : Bytes) (now : ℕ)
      → Tracks rl m now
      → ((get_allow rl ip now).1 ≡ (ledger_allow m ip now).1)
        × Tracks (get_allow rl ip now).0 (ledger_allow m ip now).0 now
  unfolding get_allow ledger_allow
  get_allow-Tracks rl m ip now v =
      let s = expire-Tracks rl m now v in
      let e =
        allow_same (lookup ip (expire rl now).ips) (m ip) now (s.agrees ip) (s.was_asked ip) in
      (ap (λ r. r.1) e, rw e (put-Tracks (expire rl now) m ip now s))

  -- The answers to a sequence of requests, each with its client and time.
  pub answers : RateLimiter L → List (Bytes × ℕ) → List Bool
  answers rl [] = []
  answers rl ((ip, now) ∷ rs) = (get_allow rl ip now).1 ∷ answers (get_allow rl ip now).0 rs

  pub ledger_answers : Ledger L → List (Bytes × ℕ) → List Bool
  ledger_answers m [] = []
  ledger_answers m ((ip, now) ∷ rs) =
      (ledger_allow m ip now).1 ∷ ledger_answers (ledger_allow m ip now).0 rs

  answers-Tracks :
      (rl : RateLimiter L) (m : Ledger L) (t : ℕ) (rs : List (Bytes × ℕ))
      → Tracks rl m t
      → IsTimely t rs
      → answers rl rs ≡ ledger_answers m rs
  unfolding answers ledger_answers
  answers-Tracks rl m t [] v h = refl
  answers-Tracks rl m t ((ip, now) ∷ rs) v h =
      let u : Tracks rl m now = record {
        distinct = v.distinct;
        agrees = λ j. later_Agrees h.0 (v.agrees j);
        was_asked = v.was_asked;
      } in
      let (e, w) = get_allow-Tracks rl m ip now u in
      ap₂ ◌∷◌ e (answers-Tracks (get_allow rl ip now).0 (ledger_allow m ip now).0 now rs w h.1)

-- From the start, requests at times that do not fall get the same answers as they would from a
-- limiter that never drops a client's bucket: forgetting unused clients gives none of them an
-- allowance that it would not have had.
pub answers-eq-ledger_answers :
    (L : Type 0) ⦃rate : Limiter L⦄ (started : ℕ) (rs : List (Bytes × ℕ))
    → IsTimely started rs
    → answers {L = L} (record { ips = []; last_cleanup = 0 }) rs
      ≡ ledger_answers {L = L} (λ j. none) rs
unfolding lookup
answers-eq-ledger_answers L started rs h =
    answers-Tracks _ (λ j. none) started rs
      (record { distinct = tt; agrees = λ j. same refl; was_asked = λ j e k. cc }) h
