-- ===== src/Outbound/Policy.antt =====
-- The two lists of reserved ranges, that of the validators and that of the outbound policy, agree.
use ahlyx_labs.Common.{
  ◌≡◌, ◌≢◌, subst, refl, ap, ◌↔◌, ◌⊎◌, inl, inr, true, false, not, Option, none, some, List, [],
  ◌∷◌, Bytes, All, arith, Bool-cases, Option-cases,
}
use ahlyx_labs.Net.{Ip, v4, v6}
use ahlyx_labs.Net.Parse.{parse_cidr}
use ahlyx_labs.Validators.{is_bogon, in_cidrs, bogon_cidrs}
use ahlyx_labs.Outbound.{
  is_public_internet_ip, special_use_cidrs, must_cidrs, in_special_use, check_public, accept,
  ResolveError, resolve_public_target,
}

-- An address is public for the outbound policy just when the validators call it no bogon, although
-- the one asks the net package and a list and the other a list of its own.
pub is_public_internet_ip-is_bogon : (ip : Ip) → is_public_internet_ip ip ≡ not (is_bogon ip)
unfolding is_public_internet_ip special_use_cidrs must_cidrs in_special_use is_bogon in_cidrs
    bogon_cidrs parse_cidr
is_public_internet_ip-is_bogon (v4 a) = ground arith
is_public_internet_ip-is_bogon (v6 a) = ground arith

AllPublic : List Ip → Type 0
AllPublic ips = All (λ ip. is_bogon ip ≡ false) ips

public-bogon : (ip : Ip) → is_public_internet_ip ip ≡ true → is_bogon ip ≡ false
public-bogon ip h = ground (arith, is_public_internet_ip-is_bogon ip)

bogon-public : (ip : Ip) → is_bogon ip ≡ false → is_public_internet_ip ip ≡ true
bogon-public ip h = ground (arith, is_public_internet_ip-is_bogon ip)

check_public_iff : (ips : List Ip) → (check_public ips ≡ none) ↔ AllPublic ips
unfolding check_public AllPublic
check_public_iff [] = (λ h. tt, λ h. refl)
check_public_iff (ip ∷ ips) =
    let (f, g) = check_public_iff ips in
    elim (Bool-cases (is_public_internet_ip ip)) [
      | inl e ↦ rw e (λ h. (public-bogon ip e, f h), λ (r, h). g h)
      | inr e ↦ rw e (λ h. ground arith, λ (r, h). ground (arith, bogon-public ip r))
    ]

accept_iff :
    (answer : Option (List Ip)) (ips : List Ip)
    → (accept answer ≡ inr ips) ↔ ((answer ≡ some ips) × (ips ≢ []) × AllPublic ips)
unfolding accept
accept_iff none ips = (λ h. ground arith, λ (h, r, a). ground arith)
accept_iff (some []) ips = (λ h. ground arith, λ (h, r, a). ground arith)
accept_iff (some (ip ∷ rest)) ips = elim (Option-cases (check_public (ip ∷ rest))) [
  | inl e ↦
      rw (accept, e)
        (
          λ h. (
            ap some (ok h),
            λ n. ground arith,
            subst AllPublic (ok h) ((check_public_iff (ip ∷ rest)).0 e),
          ),
          λ (h, r, a). ground arith,
        )
  | inr (x, e) ↦
      rw (accept, e) (λ h. ground arith, λ (h, r, a). ground (arith, e, (check_public_iff ips).1 a))
]
  where
    ok : {b : List Ip} → Path (ResolveError ⊎ List Ip) (inr (ip ∷ rest)) (inr b) → ip ∷ rest ≡ b
    ok h = cc

-- A host resolves to some addresses just when the resolver answers them, there is at least one, and
-- not one of them is a bogon: one private answer among public ones refuses the host.
pub resolve_public_target_iff :
    (resolver : Bytes → Option (List Ip)) (host : Bytes) (ips : List Ip)
    → (resolve_public_target resolver host ≡ inr ips)
      ↔ ((resolver host ≡ some ips) × (ips ≢ []) × All (λ ip. is_bogon ip ≡ false) ips)
unfolding resolve_public_target AllPublic
resolve_public_target_iff resolver host ips = accept_iff (resolver host) ips
