-- ===== src/Tests/Routes.antt =====
-- The theorem of the routes at the health check and at a capture session.
use ahlyx_labs.Common.{
  ◌≡◌, refl, Bool, true, false, Option, none, some, List, [], ◌∷◌, ◌&&◌, Bytes, str, str_eq,
  if◌then◌else◌, arith,
}
use mathlib.Core.List.{Memᴰ}
use ahlyx_labs.Config.{Config}
use ahlyx_labs.Client.{Request, origin_verification}
use ahlyx_labs.Server.{Route, reaches, pcap_rl, pcap_session, dispatch, new_router}
use ahlyx_labs.Server.Access.{IsRouter, IsAdmitted, dispatch-IsAdmitted}
use ahlyx_labs.Tests.Lookups.{loaded}

-- A router for patterns without parameters.
abbrev find_fixed : List Route → Bytes → Bytes → Option Route
find_fixed [] method path = none
find_fixed (r ∷ rs) method path =
    let later = find_fixed rs method path in
    if str_eq r.method method && str_eq r.pattern path then some r else later

found_here :
    (q r : Route) (rs : List Route) (later : Option Route) (b : Bool)
    → (later ≡ some r → Memᴰ r rs)
    → (if b then some q else later) ≡ some r
    → Memᴰ r (q ∷ rs)
found_here q r rs later true m h = Memᴰ.head (ground arith)
found_here q r rs later false m h = Memᴰ.tail (m h)

find_fixed-IsRouter : IsRouter find_fixed
find_fixed-IsRouter [] method path r h = ground arith
find_fixed-IsRouter (q ∷ rs) method path r h =
    found_here q r rs (find_fixed rs method path) (str_eq q.method method && str_eq q.pattern path)
      (find_fixed-IsRouter rs method path r) h

abbrev secured : Config
secured = record loaded { cloudflare_origin_secret = str "proxy" }

abbrev request : Request
request = record {
  remote_addr = str "198.51.100.7:443";
  connecting_ip = str "203.0.113.9";
  origin_verify = str "proxy";
  verified = false;
}

session-reached :
    dispatch find_fixed secured (str "GET") (str "/api/v1/pcap/session") request
    ≡ reaches pcap_rl pcap_session (record request { verified = true })
unfolding dispatch new_router origin_verification str_eq
session-reached = refl

dispatch-IsAdmitted_example : IsAdmitted secured request pcap_session
dispatch-IsAdmitted_example =
    dispatch-IsAdmitted find_fixed secured (str "GET") (str "/api/v1/pcap/session") request
      (record request { verified = true }) pcap_rl pcap_session find_fixed-IsRouter session-reached
