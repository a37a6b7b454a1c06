-- ===== src/Client/Spoofing.antt =====
-- A client cannot choose the key that it is limited by.
use ahlyx_labs.Common.{
  ◌≡◌, ◌≢◌, refl, ap, true, false, [], ◌∷◌, Bytes, str_eq, str_eq_iff, Bool-cases, ◌⊎◌, inl, inr,
  arith,
}
use ahlyx_labs.Client.{
  Request, not_permitted, passed, origin_verification, origin_verified, client_ip, peer_key,
  remote_ip,
}

unverified_key :
    (r : Request)
    → r.verified ≡ false
    → client_ip r ≡ peer_key (remote_ip r.remote_addr) r.remote_addr
unfolding client_ip origin_verified
unverified_key r h = rw h refl

-- A request that arrives without the mark is answered, keyed by its socket's address whatever its
-- CF-Connecting-IP header says, where no secret is set; it is refused where its header is not the
-- secret; and only where it is the secret does the middleware mark it.
pub origin_verification-client_ip :
    (secret : Bytes) (r : Request)
    → r.verified ≡ false
    → ((secret ≡ [])
        × (origin_verification secret client_ip r
            ≡ passed (peer_key (remote_ip r.remote_addr) r.remote_addr)))
      ⊎ (((secret ≢ [])
            × (r.origin_verify ≢ secret)
            × (origin_verification secret client_ip r ≡ not_permitted))
          ⊎ ((secret ≢ [])
              × (r.origin_verify ≡ secret)
              × (origin_verification secret client_ip r
                  ≡ passed (client_ip (record r { verified = true })))))
unfolding origin_verification
origin_verification-client_ip [] r h = inl (refl, ap passed (unverified_key r h))
origin_verification-client_ip (c ∷ secret) r h =
    elim (Bool-cases (str_eq r.origin_verify (c ∷ secret))) [
      | inl e ↦
          inr (inr (λ n. ground arith, (str_eq_iff r.origin_verify (c ∷ secret)).0 e, rw e refl))
      | inr e ↦ inr (
          inl (
            λ n. ground arith,
            λ q. ground (arith, e, (str_eq_iff r.origin_verify (c ∷ secret)).1 q),
            rw e refl,
          ))
    ]
