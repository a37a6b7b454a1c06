-- ===== src/Enrichment/Lookup.antt =====
-- What the lookups share, as theorems: what an answer without sources may change, and what the next
-- request for the same thing gets.
use ahlyx_labs.Common.{
  ℕ, ◌+◌, ◌≤◌, ◌≡◌, refl, Bool, true, false, Option, none, some, List, Bytes, arith, ◌==◌,
  if◌then◌else◌, sym, ◌∙◌, ap, subst, str_eq_refl, any,
}
use ahlyx_labs.Common.Assoc.{insert, lookup-insert}
use ahlyx_labs.Cache.{Cache, CacheEntry, SourceMetadata, get, set, select_ttl, ttl_partial}
use ahlyx_labs.Cache.Lifetime.{succeeded, select_ttl_lem}
use ahlyx_labs.Enrichment.{Service, Visit, Done, Fresh, complete, lookup_cached, refuse}

select_ttl-partial :
    (ss : List SourceMetadata) → any succeeded ss ≡ true → ttl_partial ≤ select_ttl ss
select_ttl-partial ss h = ground (arith, select_ttl_lem ss)

get-stored :
    (c : Cache) (key p : Bytes) (ttl now later : ℕ)
    → ttl_partial ≤ ttl
    → later ≤ now + ttl_partial
    → get
        (if ttl == 0 then c else insert key (record { payload = p; expiry = now + ttl }) c)
        key
        later
      ≡ some p
unfolding get
get-stored c key p ttl now later t l = ground (
  arith,
  str_eq_refl key,
  lookup-insert {V = CacheEntry} key key (record { payload = p; expiry = now + ttl }) c,
)

pub get-set :
    (c : Cache) (key p : Bytes) (ss : List SourceMetadata) (now later : ℕ)
    → any succeeded ss ≡ true
    → later ≤ now + ttl_partial
    → get (set c key p ss now) key later ≡ some p
unfolding set
get-set c key p ss now later h l =
    get-stored c key p (select_ttl ss) now later (select_ttl-partial ss h) l

-- The answer from the cache.
abbrev pub hit : Service → Bool → Bytes → Done
hit s no_store cached = record {
  service = s;
  answer = record { status = 200; body = cached; no_store = no_store };
  asked = false;
}

abbrev on_cached : Done → Service → Bool → Option Bytes → Done
on_cached miss s no_store none = miss
on_cached miss s no_store (some cached) = hit s no_store cached

lookup_cached_lem :
    (v : Visit) (s : Service) (ns : Bool) (key : Bytes) (fresh : Fresh)
    → lookup_cached v s ns key fresh
      ≡ on_cached (complete v ns key fresh (v.meanwhile s)) s ns (get s.cache key v.started)
unfolding lookup_cached
lookup_cached_lem v s ns key fresh = refl

pub lookup_cached-hit :
    (v : Visit) (s : Service) (ns : Bool) (key : Bytes) (fresh : Fresh) (cached : Bytes)
    → get s.cache key v.started ≡ some cached
    → lookup_cached v s ns key fresh ≡ hit s ns cached
lookup_cached-hit v s ns key fresh cached e =
    lookup_cached_lem v s ns key fresh
    ∙ ap (on_cached (complete v ns key fresh (v.meanwhile s)) s ns) e

complete-asked :
    (v : Visit) (ns : Bool) (key : Bytes) (fresh : Fresh) (s : Service)
    → (complete v ns key fresh s).asked ≡ true
unfolding complete
complete-asked v ns key fresh s = ground arith

-- Without asking, nothing is changed.
pub lookup_cached-unasked :
    (v : Visit) (s : Service) (ns : Bool) (key : Bytes) (fresh : Fresh)
    → (lookup_cached v s ns key fresh).asked ≡ false
    → (lookup_cached v s ns key fresh).service ≡ s
lookup_cached-unasked v s ns key fresh =
    subst (λ d. d.asked ≡ false → d.service ≡ s) (sym (lookup_cached_lem v s ns key fresh))
      (round (get s.cache key v.started) (complete v ns key fresh (v.meanwhile s))
        (complete-asked v ns key fresh (v.meanwhile s)))
  where
    round :
        (o : Option Bytes) (miss : Done)
        → miss.asked ≡ true
        → (on_cached miss s ns o).asked ≡ false
        → (on_cached miss s ns o).service ≡ s
    round none miss a e = ground arith
    round (some cached) miss a e = refl

complete-cache :
    (v : Visit) (s : Service) (ns : Bool) (key : Bytes) (fresh : Fresh) (bytes : Bytes)
    → fresh.data_bytes ≡ some bytes
    → (complete v ns key fresh s).service.cache ≡ set s.cache key bytes fresh.base.sources v.ended
unfolding complete
complete-cache v s ns key fresh bytes e = rw e refl

complete-body :
    (v : Visit) (s : Service) (ns : Bool) (key : Bytes) (fresh : Fresh) (bytes : Bytes)
    → fresh.data_bytes ≡ some bytes
    → (complete v ns key fresh s).answer.body ≡ bytes
unfolding complete
complete-body v s ns key fresh bytes e = rw e refl

-- After a fresh answer the same bytes answer the next request, whatever its sources would say.
pub complete-repeat :
    (v w : Visit) (s : Service) (ns : Bool) (key : Bytes) (fresh : Fresh) (bytes : Bytes)
    → fresh.data_bytes ≡ some bytes
    → any succeeded fresh.base.sources ≡ true
    → w.started ≤ v.ended + ttl_partial
    → (ns' : Bool) (fresh' : Fresh)
    → lookup_cached w (complete v ns key fresh s).service ns' key fresh'
      ≡ hit (complete v ns key fresh s).service ns' bytes
complete-repeat v w s ns key fresh bytes e h l ns' fresh' =
    lookup_cached-hit w (complete v ns key fresh s).service ns' key fresh' bytes (
      ap (λ c. get c key w.started) (complete-cache v s ns key fresh bytes e)
      ∙ get-set s.cache key bytes fresh.base.sources v.ended w.started h l)

-- The next lookup answers with the same bytes.
abbrev pub Repeats : Bool → Done → (Service → Done) → Type 0
Repeats no_store d next = next d.service ≡ hit d.service no_store d.answer.body

pub lookup_cached-Repeats :
    (v w : Visit) (s : Service) (ns : Bool) (key : Bytes) (fresh : Fresh) (bytes : Bytes)
    → fresh.data_bytes ≡ some bytes
    → any succeeded fresh.base.sources ≡ true
    → w.started ≤ v.ended + ttl_partial
    → (ns' : Bool) (fresh' : Fresh) → (lookup_cached v s ns key fresh).asked ≡ true
    → Repeats ns' (lookup_cached v s ns key fresh) (λ t. lookup_cached w t ns' key fresh')
lookup_cached-Repeats v w s ns key fresh bytes e h l ns' fresh' =
    subst (λ d. d.asked ≡ true → Repeats ns' d (λ t. lookup_cached w t ns' key fresh'))
      (sym (lookup_cached_lem v s ns key fresh)) (round (get s.cache key v.started))
  where
    round :
        (o : Option Bytes)
        → (on_cached (complete v ns key fresh (v.meanwhile s)) s ns o).asked ≡ true
        → Repeats ns'
            (on_cached (complete v ns key fresh (v.meanwhile s)) s ns o)
            (λ t. lookup_cached w t ns' key fresh')
    round none a =
        complete-repeat v w (v.meanwhile s) ns key fresh bytes e h l ns' fresh'
        ∙ ap (hit (complete v ns key fresh (v.meanwhile s)).service ns')
            (sym (complete-body v (v.meanwhile s) ns key fresh bytes e))
    round (some cached) a = ground arith

-- With a check in front of both.
pub checked-Repeats :
    (t : Bool) (status : ℕ) (msg : Bytes) (s : Service) (ns : Bool) (d : Done)
    → (next : Service → Done) → (d.asked ≡ true → Repeats ns d next)
    → (if t then refuse s ns status msg else d).asked ≡ true
    → Repeats ns
        (if t then refuse s ns status msg else d)
        (λ r. if t then refuse r ns status msg else next r)
checked-Repeats true status msg s ns d next h a = ground arith
checked-Repeats false status msg s ns d next h a = h a

pub checked-unasked :
    (t : Bool) (s : Service) (refused d : Done)
    → refused.service ≡ s
    → (d.asked ≡ false → d.service ≡ s)
    → (if t then refused else d).asked ≡ false
    → (if t then refused else d).service ≡ s
checked-unasked true s refused d e h a = e
checked-unasked false s refused d e h a = h a

-- The sources are asked only where the cache has no answer.
pub lookup_cached-missed :
    (v : Visit) (s : Service) (ns : Bool) (key : Bytes) (fresh : Fresh)
    → (lookup_cached v s ns key fresh).asked ≡ true
    → get s.cache key v.started ≡ none
lookup_cached-missed v s ns key fresh =
    subst (λ d. d.asked ≡ true → get s.cache key v.started ≡ none)
      (sym (lookup_cached_lem v s ns key fresh)) (round (get s.cache key v.started))
  where
    round :
        (o : Option Bytes)
        → (on_cached (complete v ns key fresh (v.meanwhile s)) s ns o).asked ≡ true
        → o ≡ none
    round none a = refl
    round (some cached) a = ground arith
