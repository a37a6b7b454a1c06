-- ===== src/Server/Access.antt =====
-- What a request to the server of cmd/server can reach.
use ahlyx_labs.Common.{
  ◌≡◌, refl, ◌⊎◌, inl, inr, Bool, true, false, not, ◌&&◌, ◌||◌, Option, none, some, List, [], ◌∷◌,
  ◌++◌, Bytes, str_eq_iff, if◌then◌else◌, all, arith, subst, sym,
}
use mathlib.Core.List.{Memᴰ}
use ahlyx_labs.Config.{Config}
use ahlyx_labs.Client.{Request, origin_verification}
use ahlyx_labs.Server.{
  Endpoint, health, scan, Limit, Route, new_router, scanner_if, scanner_routes, enabled,
  health_route, enrichment_routes, hardware_routes, pcap_routes, reaches, through, dispatch,
  of_answer,
}

abbrev is_health : Endpoint → Bool
is_health health = true
is_health _ = false

abbrev is_scan : Endpoint → Bool
is_scan scan = true
is_scan _ = false

-- A route is protected unless it is the health check's, and the scanner's is there only if enabled.
abbrev is_guarded : Bool → Route → Bool
is_guarded b r = (r.protected || is_health r.endpoint) && (not (is_scan r.endpoint) || b)

guarded_list :
    (b : Bool)
    → all
        (is_guarded b)
        (health_route ∷ (enrichment_routes ++ (scanner_if b ++ (hardware_routes ++ pcap_routes))))
      ≡ true
unfolding health_route enrichment_routes hardware_routes pcap_routes
guarded_list true = refl
guarded_list false = refl

new_router-guarded : (cfg : Config) → all (is_guarded (enabled cfg)) (new_router cfg) ≡ true
unfolding new_router scanner_routes
new_router-guarded cfg = guarded_list (enabled cfg)

all-Mem :
    (p : Route → Bool) (rs : List Route) (r : Route) → Memᴰ r rs → all p rs ≡ true → p r ≡ true
all-Mem p [] r m h = elim m [ ]
all-Mem p (q ∷ rs) r (Memᴰ.head same) h = subst (λ x. p x ≡ true) (sym same) (ground arith)
all-Mem p (q ∷ rs) r (Memᴰ.tail m) h = all-Mem p rs r m (ground arith)

-- The router finds a route of its table or none.
abbrev pub IsRouter : (List Route → Bytes → Bytes → Option Route) → Type 0
IsRouter find =
    (rs : List Route) (method path : Bytes) (r : Route) → find rs method path ≡ some r → Memᴰ r rs

-- What the theorem says of an endpoint that is reached.
abbrev pub IsAdmitted : Config → Request → Endpoint → Type 0
IsAdmitted cfg r e =
    ((e ≡ health)
      ⊎ (cfg.cloudflare_origin_secret ≡ [])
      ⊎ (r.origin_verify ≡ cfg.cloudflare_origin_secret))
    × (e ≡ scan → enabled cfg ≡ true)

health_sound : (e : Endpoint) → is_health e ≡ true → e ≡ health
health_sound e h = ground arith

scan-enabled : (b : Bool) (e : Endpoint) → (not (is_scan e) || b) ≡ true → e ≡ scan → b ≡ true
scan-enabled b e h s = ground arith

verified :
    (secret : Bytes) (r : Request) (l l' : Limit) (f e : Endpoint) (r' : Request)
    → of_answer l f (origin_verification secret (λ q. q) r) ≡ reaches l' e r'
    → ((secret ≡ []) ⊎ (r.origin_verify ≡ secret)) × (f ≡ e)
unfolding origin_verification
verified [] r l l' f e r' h = (inl refl, ground arith)
verified (c ∷ secret) r l l' f e r' h = ground (arith, str_eq_iff r.origin_verify (c ∷ secret))

through-IsAdmitted :
    (cfg : Config) (r r' : Request) (route : Route) (l : Limit) (e : Endpoint)
    → is_guarded (enabled cfg) route ≡ true
    → through cfg.cloudflare_origin_secret r (some route) ≡ reaches l e r'
    → IsAdmitted cfg r e
through-IsAdmitted cfg r r' route l e g =
    round cfg.cloudflare_origin_secret (enabled cfg) route.protected route.endpoint g
  where
    round :
        (secret : Bytes) (b protected : Bool) (f : Endpoint)
        → ((protected || is_health f) && (not (is_scan f) || b)) ≡ true
        → (if protected
            then of_answer route.limit f (origin_verification secret (λ q. q) r)
            else reaches route.limit f r)
          ≡ reaches l e r'
        → ((e ≡ health) ⊎ (secret ≡ []) ⊎ (r.origin_verify ≡ secret)) × (e ≡ scan → b ≡ true)
    round secret b false f g h =
        let same : f ≡ e = ground arith in
        subst
          (λ e. ((e ≡ health) ⊎ (secret ≡ []) ⊎ (r.origin_verify ≡ secret)) × (e ≡ scan → b ≡ true))
          same (inl (health_sound f (ground arith)), scan-enabled b f (ground arith))
    round secret b true f g h =
        let (v, same) = verified secret r route.limit l f e r' h in
        subst
          (λ e. ((e ≡ health) ⊎ (secret ≡ []) ⊎ (r.origin_verify ≡ secret)) × (e ≡ scan → b ≡ true))
          same (inr v, scan-enabled b f (ground arith))

-- For a router that only finds routes of its table, and whatever the method and the path: a request
-- that reaches an endpoint other than the health check carries the proxy secret, where one is
-- configured; and it reaches the scanner only if the scanner is enabled and has allowed targets.
pub dispatch-IsAdmitted :
    (find : List Route → Bytes → Bytes → Option Route) (cfg : Config) (method path : Bytes)
    (r r' : Request) (l : Limit) (e : Endpoint)
    → IsRouter find
    → dispatch find cfg method path r ≡ reaches l e r'
    → IsAdmitted cfg r e
unfolding dispatch
dispatch-IsAdmitted find cfg method path r r' l e sound =
    round (find (new_router cfg) method path) (sound (new_router cfg) method path)
  where
    round :
        (o : Option Route)
        → ((route : Route) → o ≡ some route → Memᴰ route (new_router cfg))
        → through cfg.cloudflare_origin_secret r o ≡ reaches l e r'
        → IsAdmitted cfg r e
    round none g h = ground arith
    round (some route) g h =
        through-IsAdmitted cfg r r' route l e
          (all-Mem (is_guarded (enabled cfg)) (new_router cfg) route (g route refl)
            (new_router-guarded cfg))
          h
