-- ===== src/Scanner/Scan/Hosts.antt =====
-- The hosts of a scan, whatever the order of the workers.
use mathlib.Core.List.{Permᴰ}
use mathlib.Core.Logic.{∥∥₁_elim}
use ahlyx_labs.Common.{
  ℕ, ◌≡◌, refl, sym, ap, subst, ◌∙◌, Bool, true, false, ◌&&◌, ◌||◌, List, [], ◌∷◌, ◌++◌, map, any,
  keep, All, All-mono, arith, Bool-cases, if◌then◌else◌, inl, inr,
}
use ahlyx_labs.Net.{Ip, v4, v6}
use ahlyx_labs.Scanner.Pool.{
  Task, task, Port, PortResult, ip_eq, tasks_of, all_tasks, work, works, Reach, start, pool,
}
use ahlyx_labs.Scanner.Pool.Order.{ended-Perm, works-append}
use ahlyx_labs.Scanner.Scan.{Host, ports_of, hosts_from}

abbrev seen : List PortResult → Ip → Bool
seen rs ip = any (λ r. ip_eq r.ip ip) rs

host_ips : List Host → List Ip
host_ips hs = map (λ h. h.ip) hs

has_ports : List Port → Bool
has_ports [] = false
has_ports (p ∷ ps) = true

seen-has_ports : (rs : List PortResult) (ip : Ip) → has_ports (ports_of rs ip) ≡ seen rs ip
unfolding has_ports ports_of
seen-has_ports [] ip = refl
seen-has_ports (r ∷ rs) ip = elim (Bool-cases (ip_eq r.ip ip)) [
  | inl e ↦ rw e refl
  | inr e ↦ rw e (seen-has_ports rs ip)
]

hosts_from-step :
    (rs : List PortResult) (ip : Ip) (ips : List Ip)
    → host_ips (hosts_from rs (ip ∷ ips)) ≡ (
        if has_ports (ports_of rs ip)
        then ip ∷ host_ips (hosts_from rs ips)
        else host_ips (hosts_from rs ips))
unfolding hosts_from host_ips has_ports
hosts_from-step rs ip ips = ground arith

hosts_from-nil : (rs : List PortResult) → host_ips (hosts_from rs []) ≡ []
unfolding hosts_from host_ips
hosts_from-nil rs = refl

hosts_from-seen :
    (rs : List PortResult) (ips : List Ip) → host_ips (hosts_from rs ips) ≡ keep (seen rs) ips
hosts_from-seen rs [] = hosts_from-nil rs
hosts_from-seen rs (ip ∷ ips) =
    hosts_from-step rs ip ips ∙ rw (seen-has_ports rs ip, hosts_from-seen rs ips) refl

seen-Permᴰ : (ip : Ip) {rs us : List PortResult} → Permᴰ rs us → seen rs ip ≡ seen us ip
seen-Permᴰ ip Permᴰ.nil = refl
seen-Permᴰ ip (Permᴰ.cons {a} {b} {l₁} {l₂} e d) = ground (arith, seen-Permᴰ ip d)
seen-Permᴰ ip (Permᴰ.swap {a} {b} {a'} {b'} {l} e f) = ground arith
seen-Permᴰ ip (Permᴰ.trans d₁ d₂) = seen-Permᴰ ip d₁ ∙ seen-Permᴰ ip d₂

seen-append : (rs us : List PortResult) (ip : Ip) → seen (rs ++ us) ip ≡ (seen rs ip || seen us ip)
seen-append [] us ip = refl
seen-append (r ∷ rs) us ip = ground (arith, seen-append rs us ip)

abbrev pub is_open : (Task → Bool) → List ℕ → Ip → Bool
is_open dials ports ip = any (λ p. dials (task ip p)) ports

ip_eq_sound : (a b : Ip) → ip_eq a b ≡ true → a ≡ b
ip_eq_sound (v4 a) (v4 b) h = ground arith
ip_eq_sound (v6 a) (v6 b) h = ground arith
ip_eq_sound (v4 a) (v6 b) h = ground arith
ip_eq_sound (v6 a) (v4 b) h = ground arith

ip_eq_refl : (a : Ip) → ip_eq a a ≡ true
ip_eq_refl (v4 a) = ground arith
ip_eq_refl (v6 a) = ground arith

seen-tasks_of :
    (dials : Task → Bool) (ports : List ℕ) (i ip : Ip)
    → seen (works dials (tasks_of i ports)) ip ≡ (ip_eq i ip && is_open dials ports i)
unfolding works work tasks_of
seen-tasks_of dials [] i ip = ground arith
seen-tasks_of dials (p ∷ ps) i ip =
    seen-append (work dials (task i p)) (works dials (tasks_of i ps)) ip
    ∙ rw (seen-tasks_of dials ps i ip) (seen-work (dials (task i p)) refl)
  where
    seen-work :
        (d : Bool)
        → dials (task i p) ≡ d
        → (seen (work dials (task i p)) ip || (ip_eq i ip && is_open dials ps i))
          ≡ (ip_eq i ip && (dials (task i p) || is_open dials ps i))
    seen-work true e = rw e (ground arith)
    seen-work false e = rw e (ground arith)

elem : Ip → List Ip → Bool
elem ip ips = any (λ i. ip_eq i ip) ips

seen-all_tasks :
    (dials : Task → Bool) (ports : List ℕ) (ips : List Ip) (ip : Ip)
    → seen (works dials (all_tasks ports ips)) ip ≡ (elem ip ips && is_open dials ports ip)
unfolding all_tasks elem works
seen-all_tasks dials ports [] ip = refl
seen-all_tasks dials ports (i ∷ ips) ip =
    ap (λ rs. seen rs ip) (works-append dials (tasks_of i ports) (all_tasks ports ips))
    ∙ seen-append (works dials (tasks_of i ports)) (works dials (all_tasks ports ips)) ip
    ∙ rw (seen-tasks_of dials ports i ip, seen-all_tasks dials ports ips ip)
        (merge (ip_eq i ip) refl)
  where
    merge :
        (t : Bool)
        → ip_eq i ip ≡ t
        → ((t && is_open dials ports i) || (any (λ j. ip_eq j ip) ips && is_open dials ports ip))
          ≡ ((t || any (λ j. ip_eq j ip) ips) && is_open dials ports ip)
    merge false e = ground arith
    merge true e =
        subst
          (λ j.
            (is_open dials ports j || (any (λ j. ip_eq j ip) ips && is_open dials ports ip))
            ≡ is_open dials ports ip)
          (sym (ip_eq_sound i ip e)) (ground arith)

elem-All : (ips : List Ip) → All (λ ip. elem ip ips ≡ true) ips
unfolding elem
elem-All [] = tt
elem-All (i ∷ ips) =
    (ground (arith, ip_eq_refl i), All-mono (λ ip h. ground (arith, h)) ips (elem-All ips))

keep-congr {ℓ} :
    {A : Type ℓ} (p q : A → Bool) (xs : List A) → All (λ x. p x ≡ q x) xs → keep p xs ≡ keep q xs
keep-congr p q [] h = refl
keep-congr p q (x ∷ xs) (e, h) = rw (e, keep-congr p q xs h) refl

Bool-set : IsSet Bool
Bool-set = hlevel

-- However the workers take turns, the hosts of a scan are, in the order of the targets, the targets
-- on which a dial to one of the ports succeeds.
pub hosts_from-open :
    (dials : Task → Bool) (ports : List ℕ) (ips : List Ip) (rs : List PortResult)
    → Reach dials (start (all_tasks ports ips)) (pool [] [] rs)
    → map (λ h. h.ip) (hosts_from rs ips) ≡ keep (is_open dials ports) ips
unfolding host_ips
hosts_from-open dials ports ips rs h =
    hosts_from-seen rs ips
    ∙ keep-congr (seen rs) (is_open dials ports) ips (
        All-mono (λ ip e. sym (same ip) ∙ seen-all_tasks dials ports ips ip ∙ rw e refl) ips
          (elem-All ips))
  where
    same : (ip : Ip) → seen (works dials (all_tasks ports ips)) ip ≡ seen rs ip
    same ip =
        ∥∥₁_elim (ended-Perm dials (all_tasks ports ips) rs h)
          (Bool-set (seen (works dials (all_tasks ports ips)) ip) (seen rs ip))
          (λ d. seen-Permᴰ ip d)
