-- ===== src/Telemetry/Queue.antt =====
-- The queue is bounded, keeps the order, and counts what it drops.
use mathlib.Core.List.{append_assoc, append-nil}
use ahlyx_labs.Common.{
  ◌+◌, ◌≤◌, ◌≡◌, refl, sym, ap, subst, ◌∙◌, true, List, [], ◌∷◌, ◌++◌, ltb, length, length-append,
  arith, Subseq, Subseq-refl, Subseq-empty, Subseq-append, Bool-cases, inl, inr,
}
use ahlyx_labs.Telemetry.{
  QueryLogEntry, Telemetry, query_log_queue_size, log_query, receive_from, receive, Event, logs,
  receives, step, run, connected,
}

pub logged : List Event → List QueryLogEntry
logged [] = []
logged (logs entry ∷ es) = entry ∷ logged es
logged (receives ∷ es) = logged es

abbrev pub held : Telemetry → List QueryLogEntry
held t = t.taken ++ t.queue

record IsQueue (t : Telemetry) (sent : List QueryLogEntry) : Type 0 where
  up : t.connected ≡ true
  short : length t.queue ≤ query_log_queue_size
  ordered : Subseq (held t) sent
  counted : length (held t) + t.dropped ≡ length sent

log_query-IsQueue :
    (t : Telemetry) (sent : List QueryLogEntry) (entry : QueryLogEntry)
    → IsQueue t sent
    → IsQueue (log_query t entry) (sent ++ entry ∷ [])
unfolding log_query
log_query-IsQueue t sent entry v = elim (Bool-cases (ltb (length t.queue) 128)) [
  | inl e ↦
      rw (v.up, e)
        (record {
          up = refl;
          short = ground (arith, e, length-append t.queue (entry ∷ []));
          ordered =
              subst (λ l. Subseq l (sent ++ entry ∷ [])) (append_assoc t.taken t.queue (entry ∷ []))
                (Subseq-append v.ordered (Subseq-refl (entry ∷ [])));
          counted = ground (
            arith,
            v.counted,
            length-append sent (entry ∷ []),
            length-append t.taken (t.queue ++ entry ∷ []),
            length-append t.queue (entry ∷ []),
            length-append t.taken t.queue,
          );
        })
  | inr e ↦
      rw (v.up, e)
        (record {
          up = refl;
          short = v.short;
          ordered =
              subst (λ l. Subseq l (sent ++ entry ∷ [])) (append-nil (held t))
                (Subseq-append v.ordered (Subseq-empty (entry ∷ [])));
          counted = ground (arith, v.counted, length-append sent (entry ∷ []));
        })
]

receive_from-IsQueue :
    (q : List QueryLogEntry) (t : Telemetry) (sent : List QueryLogEntry)
    → t.queue ≡ q
    → IsQueue t sent
    → IsQueue (receive_from t q) sent
unfolding receive_from
receive_from-IsQueue [] t sent e v = v
receive_from-IsQueue (entry ∷ rest) t sent e v = record {
  up = v.up;
  short = le_trans (ap length e) v.short;
  ordered = subst (λ l. Subseq l sent) same v.ordered;
  counted = ap (λ l. length l + t.dropped) (sym same) ∙ v.counted;
}
  where
    same : held t ≡ (t.taken ++ entry ∷ []) ++ rest
    same = ap (λ l. t.taken ++ l) e ∙ sym (append_assoc t.taken (entry ∷ []) rest)

    le_trans :
        length t.queue ≡ length (entry ∷ rest)
        → length t.queue ≤ query_log_queue_size
        → length rest ≤ query_log_queue_size
    le_trans f h = omega (arith, f, h)

receive-IsQueue :
    (t : Telemetry) (sent : List QueryLogEntry) → IsQueue t sent → IsQueue (receive t) sent
unfolding receive
receive-IsQueue t sent v = receive_from-IsQueue t.queue t sent refl v

run-IsQueue :
    (es : List Event) (t : Telemetry) (sent : List QueryLogEntry)
    → IsQueue t sent
    → IsQueue (run t es) (sent ++ logged es)
unfolding run step logged
run-IsQueue [] t sent v = subst (IsQueue t) (sym (append-nil sent)) v
run-IsQueue (logs entry ∷ es) t sent v =
    subst (IsQueue (run (log_query t entry) es)) (append_assoc sent (entry ∷ []) (logged es))
      (run-IsQueue es (log_query t entry) (sent ++ entry ∷ []) (log_query-IsQueue t sent entry v))
run-IsQueue (receives ∷ es) t sent v = run-IsQueue es (receive t) sent (receive-IsQueue t sent v)

-- Whatever is logged and received, in any order: at most 128 entries wait; what the workers received
-- and what waits are, in the same order, a part of what was logged; and the rest is counted as
-- dropped.
pub run-held :
    (es : List Event)
    → (length (run connected es).queue ≤ query_log_queue_size)
      × Subseq (held (run connected es)) (logged es)
      × (length (held (run connected es)) + (run connected es).dropped ≡ length (logged es))
run-held es =
    let v =
      run-IsQueue es connected []
        (record { up = refl; short = omega arith; ordered = Subseq.nil; counted = omega arith }) in
    (v.short, v.ordered, v.counted)
