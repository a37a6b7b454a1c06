-- ===== src/Tests/Service.antt =====
-- The theorems of the threat score, the client's key and the telemetry queue at concrete inputs.
use ahlyx_labs.Common.{
  ℕ, ◌+◌, ◌*◌, ◌/◌, ◌≤◌, ◌≡◌, ◌≢◌, refl, ap, true, false, none, some, List, [], ◌∷◌, str, length,
  arith, Subseq, ltb, ◌⊎◌, ℤ, pos,
}
use ahlyx_labs.Verdict.{AbuseData}
use ahlyx_labs.Threat.{Double}
use ahlyx_labs.Client.{Request, Answer, origin_verification, client_ip, peer_key, remote_ip}
use ahlyx_labs.Client.Spoofing.{origin_verification-client_ip}
use ahlyx_labs.Telemetry.{QueryLogEntry, Event, query_log_queue_size, run, connected}
use ahlyx_labs.Telemetry.Queue.{logged, held, run-held}

-- Numbers in halves: enough for sums of whole numbers and one half.
abbrev halves : ℤ → ℕ
halves (pos n) = 2 * n
halves _ = 0

instance abbrev pub half_double : Double ℕ
half_double = record {
  of_int = halves;
  plus = λ a b. a + b;
  times = λ a b. a * b / 2;
  over = λ a b. 2 * a / b;
  less = ltb;
  six_tenths = 1;
  four_tenths = 1;
  half = 1;
  to_int = λ a. pos (a / 2);
  plus_exact = λ a b h. omega arith;
  less_exact = λ a b h g. ground arith;
  to_int_half = λ a h. ap pos (omega arith);
}

abbrev reported : AbuseData
reported = record {
  abuse_score = some (pos 90);
  total_reports = some (pos 1200);
  last_reported = none;
  isp = none;
  usage_type = none;
  is_tor = none;
}

-- A direct request that claims another address.
abbrev spoofed : Request
spoofed = record {
  remote_addr = str "203.0.113.9:4711";
  connecting_ip = str "8.8.8.8";
  origin_verify = str "guess";
  verified = false;
}

origin_verification-client_ip_example :
    ((str "secret" ≡ [])
      × (origin_verification (str "secret") client_ip spoofed
          ≡ Answer.passed (peer_key (remote_ip spoofed.remote_addr) spoofed.remote_addr)))
    ⊎ (((str "secret" ≢ [])
          × (spoofed.origin_verify ≢ str "secret")
          × (origin_verification (str "secret") client_ip spoofed ≡ Answer.not_permitted))
        ⊎ ((str "secret" ≢ [])
            × (spoofed.origin_verify ≡ str "secret")
            × (origin_verification (str "secret") client_ip spoofed
                ≡ Answer.passed (client_ip (record spoofed { verified = true })))))
origin_verification-client_ip_example = origin_verification-client_ip (str "secret") spoofed refl

abbrev entry : QueryLogEntry
entry = record {
  tool = str "scanner";
  query_type = str "tcp";
  verdict = [];
  threat = false;
  source_count = 0;
  response_ms = 12;
  host_count = 1;
  port_count = 2;
}

abbrev events : List Event
events = Event.logs entry ∷ Event.receives ∷ Event.logs entry ∷ []

run-held_example :
    (length (run connected events).queue ≤ query_log_queue_size)
    × Subseq (held (run connected events)) (logged events)
    × (length (held (run connected events)) + (run connected events).dropped
        ≡ length (logged events))
run-held_example = run-held events
