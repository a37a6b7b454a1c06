-- ===== src/Scanner/Handler/Validation.antt =====
-- The checks before a scan and the scan's own agree.
use ahlyx_labs.Common.{
  ◌≡◌, refl, Option, none, some, List, ◌∷◌, ◌⊎◌, inl, inr, Bytes, arith, Bool-cases, Option-cases,
  ℕ,
}
use ahlyx_labs.Net.{Ip, IpNet, network_ip}
use ahlyx_labs.Net.Parse.{parse_ip, parse_cidr}
use ahlyx_labs.Scanner.Scope.{
  ScanError, in_scope, resolve_targets, resolve_network, resolve_single, resolve_as,
}
use ahlyx_labs.Scanner.Pool.{PortResult}
use ahlyx_labs.Scanner.Scan.{ScanResponse, scan, response, hosts_from}
use ahlyx_labs.Scanner.Handler.{
  validate_as, validate_input, handle_scan, Reply, write_result, refuse, scan_failed, finish,
}

abbrev pub error_of {ℓ} : {A : Type ℓ} → ScanError ⊎ A → Option ScanError
error_of (inl e) = some e
error_of (inr a) = none

validate_as_lem :
    (input : Bytes) (net : Option IpNet)
    → validate_as net (parse_ip input) ≡ error_of (resolve_as input net)
unfolding validate_as resolve_as resolve_network resolve_single
validate_as_lem input none = elim (Option-cases (parse_ip input)) [
  | inl e ↦ rw e refl
  | inr (ip, e) ↦ elim (Bool-cases (in_scope ip)) [
    | inl f ↦ rw (e, f) refl
    | inr f ↦ rw (e, f) refl
  ]
]
validate_as_lem input (some net) = elim (Bool-cases (in_scope (network_ip net))) [
  | inl f ↦ rw f (ground arith)
  | inr f ↦ rw f (ground arith)
]

sum-cases {ℓ κ} :
    {A : Type ℓ} {B : Type κ} (s : A ⊎ B) → ((a : A) × (s ≡ inl a)) ⊎ ((b : B) × (s ≡ inr b))
sum-cases (inl a) = inl (a, refl)
sum-cases (inr b) = inr (b, refl)

pub validate_input-resolve_targets :
    (input : Bytes) → validate_input input ≡ error_of (resolve_targets input)
unfolding validate_input resolve_targets
validate_input-resolve_targets input = validate_as_lem input (parse_cidr input)

-- The endpoint answers a text with the result of its scan, or with the error of it: no scan fails
-- once the text is accepted.
pub handle_scan_lem :
    (gather : List Ip → List PortResult) (c : ℕ) (cs : Bytes)
    → handle_scan gather (c ∷ cs)
      ≡ elim (scan gather (c ∷ cs)) [ inl e ↦ refuse e | inr r ↦ write_result r ]
unfolding handle_scan scan
handle_scan_lem gather c cs =
    answer (validate_input (c ∷ cs)) (resolve_targets (c ∷ cs))
      (validate_input-resolve_targets (c ∷ cs))
  where
    scanned : ScanError ⊎ (List Ip × Bytes) → ScanError ⊎ ScanResponse
    scanned r = elim r [
      | inl e ↦ inl e
      | inr (ips, subnet) ↦ inr (response subnet (hosts_from (gather ips) ips))
    ]

    answer :
        (v : Option ScanError) (r : ScanError ⊎ (List Ip × Bytes))
        → v ≡ error_of r
        → Path Reply
            (elim v [ some e ↦ refuse e | none ↦ finish (scan_failed (c ∷ cs)) (scanned r) ])
            (elim (scanned r) [ inl e ↦ refuse e | inr a ↦ write_result a ])
    answer v (inl e) h = rw h refl
    answer v (inr (ips, subnet)) h = rw h refl
