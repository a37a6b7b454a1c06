-- ===== src/Cache/History.antt =====
-- The cache against the history of its calls.
use ahlyx_labs.Common.{
  ℕ, ◌+◌, ◌≤◌, ◌≡◌, refl, not, ◌&&◌, Option, none, some, List, [], ◌∷◌, Bytes, arith, All, str_eq,
  ltb, leb, ◌==◌, if◌then◌else◌, Option-cases, inl, inr,
}
use ahlyx_labs.Common.Assoc.{
  Distinct, lookup, lookup-insert, lookup-delete, lookup-sweep, insert-Distinct, delete-Distinct,
  sweep-Distinct,
}
use ahlyx_labs.Cache.{SourceMetadata, Cache, select_ttl, get, set, remove, cleanup}

pub data Call : Type 0 where
  sets : Bytes → Bytes → List SourceMetadata → ℕ → Call
  removes : Bytes → Call
  cleans : ℕ → Call

pub step : Cache → Call → Cache
unfolding set remove cleanup
step c (sets key payload sources now) = set c key payload sources now
step c (removes key) = remove c key
step c (cleans now) = cleanup c now

-- The cache after a history, the latest call first.
pub after : List Call → Cache
unfolding step
after [] = []
after (call ∷ calls) = step (after calls) call

-- What a history says of a key: the latest write that was kept, while it lasts. A cleanup says
-- nothing.
pub latest : List Call → Bytes → ℕ → Option Bytes
latest [] key now = none
latest (sets k payload sources t ∷ calls) key now =
    let older = latest calls key now in
    if str_eq k key && not (select_ttl sources == 0)
    then (if leb now (t + select_ttl sources) then some payload else none)
    else older
latest (removes k ∷ calls) key now =
    let older = latest calls key now in if str_eq k key then none else older
latest (cleans t ∷ calls) key now = latest calls key now

abbrev pub IsBy : ℕ → Call → Type 0
IsBy now (cleans t) = t ≤ now
IsBy now _ = Unit {0}

after-Distinct : (calls : List Call) → Distinct (after calls)
unfolding after
after-Distinct [] = tt
after-Distinct (sets k payload sources t ∷ calls) = ground (
  arith,
  after-Distinct calls,
  insert-Distinct k (record { payload = payload; expiry = t + select_ttl sources }) (after calls),
)
after-Distinct (removes k ∷ calls) = delete-Distinct k (after calls) (after-Distinct calls)
after-Distinct (cleans t ∷ calls) = sweep-Distinct _ (after calls) (after-Distinct calls)

get-empty : (key : Bytes) (now : ℕ) → get [] key now ≡ none
unfolding get lookup
get-empty key now = refl

-- Whatever was set, deleted and cleaned up before, a read gives what the latest write that was
-- kept says, until its lifetime is over: nothing stale, and nothing lost to a cleanup.
pub get-after :
    (calls : List Call) (key : Bytes) (now : ℕ)
    → All (IsBy now) calls
    → get (after calls) key now ≡ latest calls key now
unfolding after get latest
get-after [] key now h = get-empty key now
get-after (sets k payload sources t ∷ calls) key now h = ground (
  arith,
  get-after calls key now h.1,
  lookup-insert k key (record { payload = payload; expiry = t + select_ttl sources }) (after calls),
)
get-after (removes k ∷ calls) key now h =
    ground (arith, get-after calls key now h.1, lookup-delete k key (after calls))
get-after (cleans t ∷ calls) key now h = elim (Option-cases (lookup key (after calls))) [
  | inl e ↦ ground (
    arith,
    get-after calls key now h.1,
    lookup-sweep (λ e. not (ltb e.expiry t)) key (after calls) (after-Distinct calls),
  )
  | inr (e, f) ↦ ground (
    arith,
    get-after calls key now h.1,
    lookup-sweep (λ e. not (ltb e.expiry t)) key (after calls) (after-Distinct calls),
  )
]
