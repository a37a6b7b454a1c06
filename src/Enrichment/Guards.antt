-- ===== src/Enrichment/Guards.antt =====
-- When a lookup asks its sources, and what it does otherwise.
use ahlyx_labs.Common.{
  ◌≡◌, refl, Bool, true, false, not, ◌&&◌, Option, none, some, List, ◌++◌, Bytes, str,
  if◌then◌else◌, arith,
}
use ahlyx_labs.Cache.{get}
use ahlyx_labs.Config.{Config}
use ahlyx_labs.Services.SafeBrowsing.{is_empty}
use ahlyx_labs.Threat.{Double}
use ahlyx_labs.Validators.{is_valid_ip, is_bogon_ip, is_valid_hash}
use ahlyx_labs.Validators.Domain.{is_valid_domain}
use ahlyx_labs.Enrichment.{Service, Visit, Done, refuse, lookup_cached}
use ahlyx_labs.Enrichment.Lookup.{lookup_cached-unasked, lookup_cached-missed, checked-unasked}
use ahlyx_labs.Enrichment.Ip.{IpReply, Floats, ip_handler, ip_fresh, collect_ip, no_ip_found}
use ahlyx_labs.Enrichment.Hash.{
  HashReply, hash_handler, lookup_hash, hash_fresh, collect_hash, no_hash_found, to_lower,
}
use ahlyx_labs.Enrichment.Domain.{
  DomainReply, domain_handler, domain_fresh, collect_domain, no_domain_found,
}
use ahlyx_labs.Enrichment.Url.{
  UrlReply, UrlRequest, ParsedUrl, url_handler, lookup_url, url_fresh, collect_url, no_url_found,
  is_valid_url, decode_url_request,
}

-- What is done without asking is done without any effect.
abbrev pub IsQuiet : Service → Done → Type 0
IsQuiet s d = d.asked ≡ false → d.service ≡ s

lookup_hash-IsQuiet :
    (replies : Bytes → List HashReply) (v : Visit) (s : Service) (hash : Bytes)
    → IsQuiet s (lookup_hash replies v s hash)
unfolding lookup_hash
lookup_hash-IsQuiet replies v s hash =
    checked-unasked (not (is_valid_hash hash)) s
      (refuse s false 400 (str "invalid hash: must be hex-encoded MD5, SHA-1, or SHA-256"))
      (lookup_cached v s false (str "hash:" ++ hash)
        (hash_fresh v hash (collect_hash no_hash_found (replies hash))))
      refl
      (lookup_cached-unasked v s false (str "hash:" ++ hash)
        (hash_fresh v hash (collect_hash no_hash_found (replies hash))))

hash_handler-IsQuiet :
    (replies : Bytes → List HashReply) (v : Visit) (s : Service) (param : Bytes)
    → IsQuiet s (hash_handler replies v s param)
unfolding hash_handler
hash_handler-IsQuiet replies v s param = lookup_hash-IsQuiet replies v s (to_lower param)

domain_handler-IsQuiet :
    (replies : Bytes → List DomainReply) (v : Visit) (s : Service) (name : Bytes)
    → IsQuiet s (domain_handler replies v s name)
unfolding domain_handler
domain_handler-IsQuiet replies v s name =
    checked-unasked (not (is_valid_domain name)) s (refuse s false 400 (str "invalid domain name"))
      (lookup_cached v s false (str "domain:" ++ name)
        (domain_fresh v name (collect_domain no_domain_found (replies name))))
      refl
      (lookup_cached-unasked v s false (str "domain:" ++ name)
        (domain_fresh v name (collect_domain no_domain_found (replies name))))

lookup_url-IsQuiet :
    (parse : Bytes → Option ParsedUrl) (replies : List UrlReply) (v : Visit) (s : Service)
    (url : Bytes)
    → IsQuiet s (lookup_url parse replies v s url)
unfolding lookup_url
lookup_url-IsQuiet parse replies v s url =
    checked-unasked (is_empty url) s (refuse s true 400 (str "missing required field: url")) rest
      refl
      (checked-unasked (not (is_valid_url parse url)) s bad fresh refl (
        lookup_cached-unasked v s true (str "url:" ++ url)
          (url_fresh v url (collect_url no_url_found replies))))
  where
    bad : Done
    bad = refuse s true 400 (str "invalid URL: must begin with http:// or https://")

    fresh : Done
    fresh =
        lookup_cached v s true (str "url:" ++ url)
          (url_fresh v url (collect_url no_url_found replies))

    rest : Done
    rest = if not (is_valid_url parse url) then bad else fresh

url_handler-IsQuiet :
    (parse : Bytes → Option ParsedUrl) (replies : Bytes → Bool → List UrlReply) (cfg : Config)
    (v : Visit) (s : Service) (body : Bytes)
    → IsQuiet s (url_handler parse replies cfg v s body)
unfolding url_handler
url_handler-IsQuiet parse replies cfg v s body = round (decode_url_request body)
  where
    round :
        (o : Option UrlRequest)
        → IsQuiet s (elim o as (λ x. Done) [
          | none ↦ refuse s true 400 (str "request body must be valid JSON")
          | some r ↦
              lookup_url parse
                (replies r.url (cfg.urlscan_active_submission && r.submit_urlscan))
                v
                s
                r.url
        ])
    round none = λ e. refl
    round (some r) =
        lookup_url-IsQuiet parse (replies r.url (cfg.urlscan_active_submission && r.submit_urlscan))
          v s r.url

module _ (D : Type 0) ⦃double : Double D⦄ (floats : Floats D) where
  ip_handler-IsQuiet :
      (replies : Bytes → List (IpReply D)) (v : Visit) (s : Service) (address : Bytes)
      → IsQuiet s (ip_handler D floats replies v s address)
  unfolding ip_handler
  ip_handler-IsQuiet replies v s address =
      checked-unasked (not (is_valid_ip address)) s (refuse s false 400 (str "invalid IP address"))
        rest refl
        (checked-unasked (is_bogon_ip address) s bad fresh refl (
          lookup_cached-unasked v s false (str "ip:" ++ address) (
            ip_fresh D floats v address
              (collect_ip D floats (no_ip_found D floats) (replies address)))))
    where
      bad : Done
      bad = refuse s false 422 (str "Private and reserved IP addresses are not supported")

      fresh : Done
      fresh = lookup_cached v s false (str "ip:" ++ address) (
          ip_fresh D floats v address
            (collect_ip D floats (no_ip_found D floats) (replies address)))

      rest : Done
      rest = if is_bogon_ip address then bad else fresh

  checked-asked :
      (t u : Bool) (r r' d : Done)
      → r.asked ≡ false
      → r'.asked ≡ false
      → (if t then r else if u then r' else d).asked ≡ true
      → (t ≡ false) × (u ≡ false) × (d.asked ≡ true)
  checked-asked true u r r' d hr hr' a = ground arith
  checked-asked false true r r' d hr hr' a = ground arith
  checked-asked false false r r' d hr hr' a = (refl, refl, a)

  -- The sources are asked about an address only if it is one, it is in none of the reserved ranges,
  -- and the cache has no answer for it that still lives.
  pub ip_handler-asked :
      (replies : Bytes → List (IpReply D)) (v : Visit) (s : Service) (address : Bytes)
      → (ip_handler D floats replies v s address).asked ≡ true
      → (is_valid_ip address ≡ true)
        × (is_bogon_ip address ≡ false)
        × (get s.cache (str "ip:" ++ address) v.started ≡ none)
  unfolding ip_handler
  ip_handler-asked replies v s address a =
      let (valid, public, asked) =
        checked-asked (not (is_valid_ip address)) (is_bogon_ip address)
          (refuse s false 400 (str "invalid IP address"))
          (refuse s false 422 (str "Private and reserved IP addresses are not supported"))
          (lookup_cached v s false (str "ip:" ++ address) (
            ip_fresh D floats v address
              (collect_ip D floats (no_ip_found D floats) (replies address))))
          refl refl a in
      (
        ground (arith, valid),
        public,
        lookup_cached-missed v s false (str "ip:" ++ address)
            (ip_fresh D floats v address
              (collect_ip D floats (no_ip_found D floats) (replies address)))
            asked,
      )

  -- A lookup that answers without asking its sources, because it refuses the request or has the answer
  -- cached, leaves the cache and the telemetry as they are: for an address, a domain, a hash and a URL.
  pub handlers-IsQuiet :
      (ips : Bytes → List (IpReply D)) (domains : Bytes → List DomainReply)
      (hashes : Bytes → List HashReply) (urls : Bytes → Bool → List UrlReply)
      (parse : Bytes → Option ParsedUrl) (cfg : Config) (v : Visit) (s : Service) (text : Bytes)
      → IsQuiet s (ip_handler D floats ips v s text)
        × IsQuiet s (domain_handler domains v s text)
        × IsQuiet s (hash_handler hashes v s text)
        × IsQuiet s (url_handler parse urls cfg v s text)
  handlers-IsQuiet ips domains hashes urls parse cfg v s text = (
    ip_handler-IsQuiet ips v s text,
    domain_handler-IsQuiet domains v s text,
    hash_handler-IsQuiet hashes v s text,
    url_handler-IsQuiet parse urls cfg v s text,
  )
