-- ===== src/Net/Tests.antt =====
-- Runs of the parsers of addresses and networks.
use ahlyx_labs.Common.{◌≡◌, refl, none, some, str}
use ahlyx_labs.Net.{v4, v6, net4, net6}
use ahlyx_labs.Net.Parse.{parse_ip, parse_cidr}

parse_ip_dotted : parse_ip (str "192.168.1.20") ≡ some (v4 0xc0a80114)
unfolding parse_ip
parse_ip_dotted = refl

parse_ip_short : parse_ip (str "1.2.3") ≡ none
unfolding parse_ip
parse_ip_short = refl

parse_ip_leading_zero : parse_ip (str "01.2.3.4") ≡ none
unfolding parse_ip
parse_ip_leading_zero = refl

parse_ip_mapped : parse_ip (str "::ffff:10.0.0.1") ≡ some (v4 0x0a000001)
unfolding parse_ip
parse_ip_mapped = refl

parse_ip_loopback : parse_ip (str "::1") ≡ some (v6 1)
unfolding parse_ip
parse_ip_loopback = refl

parse_ip_trailing_ellipsis : parse_ip (str "1::") ≡ some (v6 0x00010000000000000000000000000000)
unfolding parse_ip
parse_ip_trailing_ellipsis = refl

parse_ip_middle :
    parse_ip (str "2001:db8::a:1.2.3.4") ≡ some (v6 0x20010db8000000000000000a01020304)
unfolding parse_ip
parse_ip_middle = refl

parse_ip_two_ellipses : parse_ip (str "1::2::3") ≡ none
unfolding parse_ip
parse_ip_two_ellipses = refl

parse_ip_long_group : parse_ip (str "12345::") ≡ none
unfolding parse_ip
parse_ip_long_group = refl

parse_cidr_dotted : parse_cidr (str "192.168.1.20/24") ≡ some (net4 0xc0a80100 24)
unfolding parse_cidr
parse_cidr_dotted = refl

parse_cidr_six : parse_cidr (str "fc00::/7") ≡ some (net6 0xfc000000000000000000000000000000 7)
unfolding parse_cidr
parse_cidr_six = refl

parse_cidr_too_long : parse_cidr (str "10.0.0.0/33") ≡ none
unfolding parse_cidr
parse_cidr_too_long = refl

parse_cidr_bare : parse_cidr (str "10.0.0.0") ≡ none
unfolding parse_cidr
parse_cidr_bare = refl
