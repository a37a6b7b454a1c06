-- ===== src/Tests/Scans.antt =====
-- The theorems of the scanner, the validators and the outbound policy at concrete inputs.
use ahlyx_labs.Common.{
  none, ◌≡◌, ◌≢◌, refl, ◌↔◌, inr, Bool, true, false, Option, some, List, [], ◌∷◌, map, keep, Bytes,
  str, ◌==◌, arith, All,
}
use ahlyx_labs.Net.{Ip, v4, IpNet, net4, contains}
use ahlyx_labs.Net.Parse.{parse_ip, parse_cidr}
use ahlyx_labs.Scanner.Scope.{
  in_scope, in_scope_blocks, must_parse_cidrs, resolve_targets, resolve_as, resolve_single,
  resolve_network, hosts_of, hosts_below, enumerate_hosts,
}
use ahlyx_labs.Scanner.Scope.Safety.{resolve_targets-in_scope}
use ahlyx_labs.Scanner.Pool.{
  Task, task, PortResult, Pool, pool, start, all_tasks, tasks_of, work, Step, Reach,
}
use ahlyx_labs.Scanner.Scan.{hosts_from}
use ahlyx_labs.Scanner.Scan.Hosts.{is_open, hosts_from-open}
use ahlyx_labs.Scanner.Handler.{validate_controlled_target, is_private_lab_ip, within_allowed}
use ahlyx_labs.Scanner.Handler.Controlled.{Scans, controlled-IsLab, controlled-contains}
use ahlyx_labs.Validators.{is_bogon}
use ahlyx_labs.Outbound.{resolve_public_target}
use ahlyx_labs.Outbound.Policy.{resolve_public_target_iff}

resolve_targets-in_scope_example :
    All (λ ip. in_scope ip ≡ true) (v4 0x0a000001 ∷ []) × (str "10.0.0.1" ≡ str "10.0.0.1")
unfolding resolve_targets resolve_as resolve_single in_scope in_scope_blocks must_parse_cidrs
    parse_cidr parse_ip
resolve_targets-in_scope_example =
    resolve_targets-in_scope (str "10.0.0.1") (str "10.0.0.1") (v4 0x0a000001 ∷ []) refl

-- A lab where only port 80 of one address is open.
abbrev dials : Task → Bool
dials t = t.port == 80

abbrev host : Ip
host = v4 0x0a000001

abbrev one_task : List Task
one_task = task host 80 ∷ []

ran : Reach dials (start one_task) (pool [] [] (work dials (task host 80)))
ran =
    Reach.goes _ _ _ (Step.takes (task host 80) [] [] [] (omega arith))
      (Reach.goes _ _ _ (Step.sends (task host 80) [] [] [] []) (Reach.stays _))

queued :
    Reach dials (start (all_tasks (80 ∷ []) (host ∷ []))) (pool [] [] (work dials (task host 80)))
unfolding all_tasks tasks_of
queued = ran

hosts_from-open_example :
    map (λ h. h.ip) (hosts_from (work dials (task host 80)) (host ∷ []))
    ≡ keep (is_open dials (80 ∷ [])) (host ∷ [])
hosts_from-open_example =
    hosts_from-open dials (80 ∷ []) (host ∷ []) (work dials (task host 80)) queued

abbrev nothing_open : List Ip → List PortResult
nothing_open ips = []

abbrev lab : IpNet
lab = net4 0x0a000000 16

controlled-IsLab_example : Scans (str "10.0.5.0/24") (λ ip. is_private_lab_ip ip ≡ true)
unfolding validate_controlled_target is_private_lab_ip within_allowed parse_cidr
controlled-IsLab_example = controlled-IsLab (str "10.0.5.0/24") (lab ∷ []) refl

controlled-contains_example : Scans (str "10.0.5.0/24") (λ ip. contains lab ip ≡ true)
unfolding validate_controlled_target is_private_lab_ip within_allowed parse_cidr
controlled-contains_example = controlled-contains (str "10.0.5.0/24") lab refl

-- A name with a public and a private address.
abbrev resolver : Bytes → Option (List Ip)
resolver name = some (v4 0x08080808 ∷ v4 0x0a000001 ∷ [])

resolve_public_target_iff_example :
    (resolve_public_target resolver (str "example.com") ≡ inr (v4 0x08080808 ∷ v4 0x0a000001 ∷ []))
    ↔ ((resolver (str "example.com") ≡ some (v4 0x08080808 ∷ v4 0x0a000001 ∷ []))
        × ((v4 0x08080808 ∷ v4 0x0a000001 ∷ []) ≢ [])
        × All (λ ip. is_bogon ip ≡ false) (v4 0x08080808 ∷ v4 0x0a000001 ∷ []))
resolve_public_target_iff_example =
    resolve_public_target_iff resolver (str "example.com") (v4 0x08080808 ∷ v4 0x0a000001 ∷ [])

-- Two blocks that have the first and the last address of a network, but not those between: the
-- network is accepted, and scanned.
abbrev ends : List IpNet
ends = net4 0x0a000000 28 ∷ net4 0x0a0000f0 28 ∷ []

accepts_ends : validate_controlled_target (str "10.0.0.0/24") ends ≡ none
unfolding validate_controlled_target is_private_lab_ip within_allowed parse_cidr
accepts_ends = refl

outside_ends : within_allowed (v4 0x0a000064) ends ≡ false
unfolding within_allowed
outside_ends = refl

-- A network in the IPv4-mapped form is accepted, and nothing of it is scanned.
mapped_network : resolve_targets (str "::ffff:10.0.0.0/104") ≡ inr ([], str "::ffff:10.0.0.0/104")
unfolding resolve_targets resolve_as resolve_network in_scope in_scope_blocks must_parse_cidrs
    parse_cidr enumerate_hosts hosts_of hosts_below
mapped_network = refl

small_network :
    resolve_targets (str "192.168.1.9/30")
    ≡ inr (v4 0xc0a80109 ∷ v4 0xc0a8010a ∷ [], str "192.168.1.9/30")
unfolding resolve_targets resolve_as resolve_network in_scope in_scope_blocks must_parse_cidrs
    parse_cidr enumerate_hosts hosts_of hosts_below
small_network = refl

single_network : resolve_targets (str "192.168.1.9/32") ≡ inr ([], str "192.168.1.9/32")
unfolding resolve_targets resolve_as resolve_network in_scope in_scope_blocks must_parse_cidrs
    parse_cidr enumerate_hosts hosts_of hosts_below
single_network = refl
