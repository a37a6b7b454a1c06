-- ===== src/Server.antt =====
-- cmd/server/main.go: newRouter, the table of routes. The router that finds a request's route in the
-- table is chi's, an argument.
pub mod Access
use ahlyx_labs.Common.{
  ℕ, ◌*◌, ◌/◌, Bool, true, false, not, ◌&&◌, Option, none, some, List, [], ◌∷◌, ◌++◌, Bytes, str,
  if◌then◌else◌, second,
}
use ahlyx_labs.Config.{Config}
use ahlyx_labs.Net.{IpNet}
use ahlyx_labs.Client.{Request, Answer, not_permitted, passed, origin_verification}

pub data Endpoint : Type 0 where
  health capabilities ip domain hash url deprecated_url scan : Endpoint
  system cpu ram disk network pcap_session relay : Endpoint

-- The rate limiters.
pub data Limit : Type 0 where
  unlimited std_rl url_rl scan_rl hw_rl pcap_rl : Limit

-- The time for a token, in nanoseconds, and the burst.
unfoldable pub rate_of : Limit → Option (ℕ × ℕ)
rate_of unlimited = none
rate_of std_rl = some (2 * second, 30)
rate_of url_rl = some (6 * second, 10)
rate_of scan_rl = some (12 * second, 5)
rate_of hw_rl = some (2 * second, 30)
rate_of pcap_rl = some (6 * second, 10)

-- The limiter that all share.
abbrev pub global_rl : ℕ × ℕ
global_rl = (second / 10, 120)

-- `protected` says that OriginVerification stands in front. The scanner's limiter is asked by its
-- handler, the others by a middleware.
pub record Route : Type 0 where
  pub method : Bytes
  pub pattern : Bytes
  pub protected : Bool
  pub limit : Limit
  pub endpoint : Endpoint

abbrev guarded : (method pattern : Bytes) → Limit → Endpoint → Route
guarded method pattern limit endpoint = record {
  method = method;
  pattern = pattern;
  protected = true;
  limit = limit;
  endpoint = endpoint;
}

abbrev get : Bytes → Limit → Endpoint → Route
get pattern limit endpoint = guarded (str "GET") pattern limit endpoint

abbrev is_nil : List IpNet → Bool
is_nil [] = true
is_nil (b ∷ bs) = false

abbrev pub enabled : Config → Bool
enabled cfg = cfg.server_scanner_enabled && not (is_nil cfg.server_scanner_allowed_targets)

unfoldable pub health_route : Route
health_route = record {
  method = str "GET";
  pattern = str "/health";
  protected = false;
  limit = unlimited;
  endpoint = health;
}

unfoldable pub enrichment_routes : List Route
enrichment_routes =
    get (str "/api/v1/capabilities") unlimited capabilities
    ∷ get (str "/api/v1/ip/{address}") std_rl ip
    ∷ get (str "/api/v1/domain/{name}") std_rl domain
    ∷ get (str "/api/v1/hash/{hash}") std_rl hash
    ∷ guarded (str "POST") (str "/api/v1/url") url_rl url
    ∷ get (str "/api/v1/url") url_rl deprecated_url
    ∷ []

abbrev pub scanner_if : Bool → List Route
scanner_if true = get (str "/api/v1/scanner/scan") scan_rl scan ∷ []
scanner_if false = []

-- The scanner, where it is enabled for some target.
unfoldable pub scanner_routes : Config → List Route
scanner_routes cfg = scanner_if (enabled cfg)

unfoldable pub hardware_routes : List Route
hardware_routes =
    get (str "/api/v1/hardware/system") hw_rl system
    ∷ get (str "/api/v1/hardware/cpu") hw_rl cpu
    ∷ get (str "/api/v1/hardware/ram") hw_rl ram
    ∷ get (str "/api/v1/hardware/disk") hw_rl disk
    ∷ get (str "/api/v1/hardware/network") hw_rl network
    ∷ []

unfoldable pub pcap_routes : List Route
pcap_routes =
    get (str "/api/v1/pcap/session") pcap_rl pcap_session
    ∷ get (str "/ws/relay/{session_id}") pcap_rl relay
    ∷ []

unfoldable pub new_router : Config → List Route
unfolding health_route enrichment_routes scanner_routes hardware_routes pcap_routes
new_router cfg =
    health_route ∷ (enrichment_routes ++ (scanner_routes cfg ++ (hardware_routes ++ pcap_routes)))

-- What becomes of a request: no route (not found, or the method not allowed), a refusal of the
-- middleware, or an endpoint behind its limit.
pub data Dispatched : Type 0 where
  no_route refused : Dispatched
  reaches : Limit → Endpoint → Request → Dispatched

abbrev pub of_answer : Limit → Endpoint → Answer Request → Dispatched
of_answer limit endpoint not_permitted = refused
of_answer limit endpoint (passed r) = reaches limit endpoint r

abbrev pub through : Bytes → Request → Option Route → Dispatched
through secret r none = no_route
through secret r (some route) =
    if route.protected
    then of_answer route.limit route.endpoint (origin_verification secret (λ r'. r') r)
    else reaches route.limit route.endpoint r

-- `find` is the router's choice of a route for a method and a path.
unfoldable pub dispatch :
    (find : List Route → Bytes → Bytes → Option Route)
    → Config
    → (method path : Bytes) → Request
    → Dispatched
unfolding new_router
dispatch find cfg method path r =
    through cfg.cloudflare_origin_secret r (find (new_router cfg) method path)
