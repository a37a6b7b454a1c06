-- ===== src/Services/Deadline.antt =====
-- How long a scan is waited for.
use ahlyx_labs.Common.{
  ℕ, zero, suc, ◌+◌, ◌*◌, ◌≤◌, ◌<◌, ◌==◌, ◌≡◌, refl, Bool, true, false, not, ◌&&◌, leb, Option,
  none, some, is_some, [], ◌∷◌, Bytes, str, ltb, if◌then◌else◌, arith, second, subst, sym,
}
use ahlyx_labs.Verdict.{UrlScanData}
use ahlyx_labs.Services.{Content, cut, whole, Answer, refused, answered, Reply, http_error}
use ahlyx_labs.Services.UrlScan.{
  Session, poll, result_request, fetch_urlscan, Polled, gave_up, on_uuid, on_submitted,
  on_submission, await, of_content, urlscan_payload, submit_request, finish, error_reply, parsed,
  decode_uuid,
}

-- Each round sleeps for two seconds first.
abbrev pub Sleeps : Session → Type 0
Sleeps s = (n : ℕ) → s.clock n + 2 * second ≤ s.clock (suc n)

-- The clock after n rounds.
clock-le : (s : Session) → Sleeps s → (n : ℕ) → s.clock 0 + n * (2 * second) ≤ s.clock n
clock-le s h zero = omega arith
clock-le s h (suc n) = omega (arith, clock-le s h n, h n)

abbrev too_late : Polled
too_late = gave_up (str "scan result not ready within 8 seconds")

abbrev on_poll : Option Polled → Bool → Answer → Option Polled
on_poll again late (refused e) = some (gave_up e)
on_poll again late (answered status content) =
    if status == 200 then some (of_content content) else if late then some too_late else again

poll-suc :
    (s : Session) (uuid : Bytes) (deadline rounds n : ℕ)
    → poll s uuid deadline (suc rounds) n
      ≡ on_poll
          (poll s uuid deadline rounds (suc n))
          (ltb deadline (s.clock n))
          (s.web n (result_request uuid))
unfolding poll
poll-suc s uuid deadline rounds n = refl

on_poll-ends :
    (again : Option Polled) (late : Bool) (answer : Answer)
    → (late ≡ false → is_some again ≡ true)
    → is_some (on_poll again late answer) ≡ true
on_poll-ends again late (refused e) h = refl
on_poll-ends again late (answered status content) h = round (status == 200) late h
  where
    round :
        (b l : Bool)
        → (l ≡ false → is_some again ≡ true)
        → is_some (if b then some (of_content content) else if l then some too_late else again)
          ≡ true
    round true l k = refl
    round false true k = refl
    round false false k = k refl

-- The polling ends if the deadline has passed by the last round.
poll-ends :
    (s : Session) (uuid : Bytes) (deadline rounds n : ℕ)
    → deadline < s.clock (n + rounds)
    → is_some (poll s uuid deadline (suc rounds) n) ≡ true
poll-ends s uuid deadline zero n h =
    subst (λ o. is_some o ≡ true) (sym (poll-suc s uuid deadline zero n))
      (on_poll-ends (poll s uuid deadline zero (suc n)) (ltb deadline (s.clock n))
        (s.web n (result_request uuid)) (λ e. ground (arith, h)))
poll-ends s uuid deadline (suc rounds) n h =
    subst (λ o. is_some o ≡ true) (sym (poll-suc s uuid deadline (suc rounds) n))
      (on_poll-ends (poll s uuid deadline (suc rounds) (suc n)) (ltb deadline (s.clock n))
        (s.web n (result_request uuid))
        (λ e.
          poll-ends s uuid deadline rounds (suc n)
            (subst (λ k. deadline < s.clock k) (omega arith) h)))

await-ends : (s : Session) (uuid : Bytes) → Sleeps s → is_some (await s 5 uuid) ≡ true
await-ends s uuid h =
    round (poll s uuid (s.clock 0 + 8 * second) 5 1)
      (poll-ends s uuid (s.clock 0 + 8 * second) 4 1 (omega (arith, clock-le s h 5)))
  where
    round :
        (o : Option Polled)
        → is_some o ≡ true
        → is_some (elim o as (λ x. Option (Reply UrlScanData)) [
          | none ↦ none
          | some p ↦ some (finish s p)
        ])
          ≡ true
    round none e = ground arith
    round (some p) e = refl

on_uuid-ends :
    (s : Session) (body : Bytes) (o : Option Bytes) → Sleeps s → is_some (on_uuid s 5 body o) ≡ true
on_uuid-ends s body none h = refl
on_uuid-ends s body (some []) h = refl
on_uuid-ends s body (some (c ∷ uuid)) h = await-ends s (c ∷ uuid) h

on_submitted-ends :
    (s : Session) (content : Content) → Sleeps s → is_some (on_submitted s 5 content) ≡ true
on_submitted-ends s (cut e) h = refl
on_submitted-ends s (whole body) h = on_uuid-ends s body (parsed decode_uuid body) h

on_submission-ends :
    (s : Session) (answer : Answer) → Sleeps s → is_some (on_submission s 5 answer) ≡ true
on_submission-ends s (refused e) h = refl
on_submission-ends s (answered status content) h =
    round (not (status == 200) && not (status == 400) && leb 400 status)
      (on_submitted-ends s content h)
  where
    round :
        (b : Bool)
        → is_some (on_submitted s 5 content) ≡ true
        → is_some (if b then some (error_reply s (http_error status)) else on_submitted s 5 content)
          ≡ true
    round true e = refl
    round false e = e

-- If each round sleeps for at least two seconds, a lookup at URLScan ends within five rounds, also
-- when no result ever gets ready and every request is answered.
pub fetch_urlscan-ends :
    (s : Session) (api_key target_url visibility : Bytes)
    → Sleeps s
    → is_some (fetch_urlscan s 5 api_key target_url visibility) ≡ true
unfolding fetch_urlscan
fetch_urlscan-ends s api_key target_url visibility h = round (urlscan_payload target_url visibility)
  where
    round :
        (o : Option Bytes)
        → is_some (elim o as (λ x. Option (Reply UrlScanData)) [
          | none ↦ some (error_reply s (str "URLScan active submission is not configured safely"))
          | some payload ↦ on_submission s 5 (s.web 0 (submit_request api_key payload))
        ])
          ≡ true
    round none = refl
    round (some payload) = on_submission-ends s (s.web 0 (submit_request api_key payload)) h
