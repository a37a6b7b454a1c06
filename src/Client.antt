-- ===== src/Client.antt =====
-- Who a request comes from: internal/shared/origin_verify.go, and ClientIP of ratelimit.go.
pub mod Spoofing
use ahlyx_labs.Common.{
  ℕ, Bool, true, false, not, ◌&&◌, ◌||◌, Option, none, some, List, [], ◌∷◌, Bytes, str, str_eq,
  ◌==◌, if◌then◌else◌, any,
}
use ahlyx_labs.Net.{Ip}
use ahlyx_labs.Net.Parse.{parse_ip}

-- What the two functions read of a request: the headers, each the empty text if it is missing, and
-- the mark that the context carries.
pub record Request : Type 0 where
  pub remote_addr : Bytes
  pub connecting_ip : Bytes
  pub origin_verify : Bytes
  pub verified : Bool

pub data Answer (A : Type 0) : Type 0 where
  not_permitted : Answer A
  passed : A → Answer A

-- The middleware before the handler `next`.
unfoldable pub origin_verification : {A : Type 0} → Bytes → (Request → A) → Request → Answer A
origin_verification [] next r = passed (next r)
origin_verification (c ∷ secret) next r =
    if not (str_eq r.origin_verify (c ∷ secret))
    then not_permitted
    else passed (next (record r { verified = true }))

unfoldable pub origin_verified : Request → Bool
origin_verified r = r.verified

has : ℕ → Bytes → Bool
has c s = any (λ b. b == c) s

-- The texts before and after the last colon.
last_colon : Bytes → Option (Bytes × Bytes)
last_colon [] = none
last_colon (c ∷ s) = elim (last_colon s) [
  | some (host, port) ↦ some (c ∷ host, port)
  | none ↦ if c == b':' then some ([], s) else none
]

-- The texts before and after the first closing bracket.
close_bracket : Bytes → Option (Bytes × Bytes)
close_bracket [] = none
close_bracket (c ∷ s) =
    let later = close_bracket s in
    if c == b']'
    then some ([], s)
    else elim later [ none ↦ none | some (inside, rest) ↦ some (c ∷ inside, rest) ]

-- In brackets: what follows is a colon, the last one, and no further bracket.
bracketed : Option (Bytes × Bytes) → Option Bytes
unfolding has
bracketed none = none
bracketed (some (host, [])) = none
bracketed (some (host, c ∷ port)) =
    if not (c == b':') || has b':' port || has b'[' host || has b'[' port || has b']' port
    then none
    else some host

plain : Option (Bytes × Bytes) → Option Bytes
unfolding has
plain none = none
plain (some (host, port)) =
    if has b':' host || has b'[' host || has b']' host || has b'[' port || has b']' port
    then none
    else some host

-- The host of net.SplitHostPort.
split_host : Bytes → Option Bytes
unfolding bracketed plain close_bracket last_colon
split_host [] = none
split_host (c ∷ s) = if c == b'[' then bracketed (close_bracket s) else plain (last_colon (c ∷ s))

unfoldable pub remote_ip : Bytes → Option Ip
unfolding split_host
remote_ip address = elim (split_host address) [
  | none ↦ parse_ip address
  | some host ↦ parse_ip host
]

-- The key of a client: an address, for the text that String prints of it, or a text that is none.
pub data ClientKey : Type 0 where
  address : Ip → ClientKey
  raw : Bytes → ClientKey

abbrev pub peer_key : Option Ip → Bytes → ClientKey
peer_key none remote_addr = raw remote_addr
peer_key (some ip) remote_addr = address ip

unfoldable pub client_ip : Request → ClientKey
unfolding remote_ip origin_verified
client_ip r =
    if not (origin_verified r)
    then peer_key (remote_ip r.remote_addr) r.remote_addr
    else elim (parse_ip r.connecting_ip) [
      | some client ↦ address client
      | none ↦ peer_key (remote_ip r.remote_addr) r.remote_addr
    ]
