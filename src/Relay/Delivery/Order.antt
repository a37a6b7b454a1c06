-- ===== src/Relay/Delivery/Order.antt =====
-- Frames keep their order, whatever the interleaving.
use mathlib.Core.List.{append_assoc, append-nil}
use ahlyx_labs.Common.{
  ℕ, suc, ◌+◌, ◌≡◌, refl, sym, ap, subst, inl, inr, true, Option, none, some, List, [], ◌∷◌, ◌++◌,
  Bytes, arith, length, length-append, is_some, Option-cases, Bool-cases, Subseq, Subseq-refl,
  Subseq-empty, Subseq-append, Subseq-trans,
}
use ahlyx_labs.Relay.Session.{new_session}
use ahlyx_labs.Relay.Delivery.{
  Viewer, Relay, start, takes, forwarded, swapped, closed, Step, forwards, writes, misses, locks,
  swaps, flushes, breaks, unlocks, closes, Reach, here, next,
}

abbrev in_flight : Viewer → List Bytes
in_flight (Viewer.flushing rest) = rest
in_flight _ = []

abbrev in_hand : Option Bytes → List Bytes
in_hand none = []
in_hand (some msg) = msg ∷ []

-- The frames that were written, that the flush holds, that are buffered, and with which the
-- agent's loop waits.
abbrev pub accounted : Relay → List Bytes
accounted t = t.wire ++ (in_flight t.viewer ++ (t.session.buffer ++ in_hand t.agent))

pub record IsOrdered (t : Relay) : Type 0 where
  pub ordered : Subseq (accounted t) t.sent
  pub counted : length (accounted t) + t.lost ≡ length t.sent
  pub drained : is_some t.session.browser ≡ true → t.session.buffer ≡ []
  pub blocked : is_some t.agent ≡ true → t.session.buffer ≡ []

-- A step that only moves frames on.
IsOrdered-moved :
    {t u : Relay}
    → IsOrdered t
    → accounted u ≡ accounted t
    → u.sent ≡ t.sent
    → u.lost ≡ t.lost
    → (is_some u.session.browser ≡ true → u.session.buffer ≡ [])
    → (is_some u.agent ≡ true → u.session.buffer ≡ [])
    → IsOrdered u
IsOrdered-moved v a s l d b = record {
  ordered = rw (a, s) v.ordered;
  counted = rw (a, s, l) v.counted;
  drained = d;
  blocked = b;
}

-- A step that drops the frames `ms` between `xs` and `ys`.
IsOrdered-dropped :
    {t u : Relay} (xs ms ys : List Bytes)
    → IsOrdered t
    → accounted t ≡ xs ++ (ms ++ ys)
    → accounted u ≡ xs ++ ys
    → u.sent ≡ t.sent
    → u.lost ≡ t.lost + length ms
    → (is_some u.session.browser ≡ true → u.session.buffer ≡ [])
    → (is_some u.agent ≡ true → u.session.buffer ≡ [])
    → IsOrdered u
IsOrdered-dropped {t} {u} xs ms ys v a a' s l d b = record {
  ordered =
      rw (a', s)
        (Subseq-trans (rw a at v.ordered)
          (Subseq-append (Subseq-refl xs) (Subseq-append (Subseq-empty ms) (Subseq-refl ys))));
  counted = omega (
    arith,
    l,
    v.counted,
    ap length a,
    ap length a',
    ap length s,
    length-append xs (ms ++ ys),
    length-append ms ys,
    length-append xs ys,
  );
  drained = d;
  blocked = b;
}

-- A new frame that is kept, behind all others, and one that is dropped.
IsOrdered-added :
    {t u : Relay} (msg : Bytes)
    → IsOrdered t
    → accounted u ≡ accounted t ++ msg ∷ []
    → u.sent ≡ t.sent ++ msg ∷ []
    → u.lost ≡ t.lost
    → (is_some u.session.browser ≡ true → u.session.buffer ≡ [])
    → (is_some u.agent ≡ true → u.session.buffer ≡ [])
    → IsOrdered u
IsOrdered-added {t} {u} msg v a s l d b = record {
  ordered = rw (a, s) (Subseq-append v.ordered (Subseq-refl (msg ∷ [])));
  counted = omega (
    arith,
    l,
    v.counted,
    ap length a,
    ap length s,
    length-append (accounted t) (msg ∷ []),
    length-append t.sent (msg ∷ []),
  );
  drained = d;
  blocked = b;
}

IsOrdered-refused :
    {t u : Relay} (msg : Bytes)
    → IsOrdered t
    → accounted u ≡ accounted t
    → u.sent ≡ t.sent ++ msg ∷ []
    → u.lost ≡ suc t.lost
    → (is_some u.session.browser ≡ true → u.session.buffer ≡ [])
    → (is_some u.agent ≡ true → u.session.buffer ≡ [])
    → IsOrdered u
IsOrdered-refused {t} {u} msg v a s l d b = record {
  ordered =
      rw (a, s, ← append-nil (accounted t)) (Subseq-append v.ordered (Subseq-empty (msg ∷ [])));
  counted = omega (arith, l, v.counted, ap length a, ap length s, length-append t.sent (msg ∷ []));
  drained = d;
  blocked = b;
}

append_end :
    (ws fs bs : List Bytes) (msg : Bytes)
    → ws ++ (fs ++ ((bs ++ msg ∷ []) ++ [])) ≡ (ws ++ (fs ++ (bs ++ []))) ++ msg ∷ []
append_end ws fs bs msg = simp (append-nil, append_assoc)

forwarded-IsOrdered :
    (t : Relay) (msg : Bytes) (now : ℕ)
    → t.agent ≡ none
    → IsOrdered t
    → IsOrdered (forwarded t msg now)
unfolding forwarded
forwarded-IsOrdered t msg now idle v = elim (Option-cases t.session.browser) [
  | inl alone ↦ elim (Bool-cases (takes t.session msg)) [
    | inl fits ↦
        IsOrdered-added msg v
          (ground (arith, append_end t.wire (in_flight t.viewer) t.session.buffer msg)) refl
          (ground arith) (ground arith) (ground arith)
    | inr full ↦
        IsOrdered-refused msg v (ground arith) refl (ground arith) (ground arith) (ground arith)
  ]
  | inr (ws, seen) ↦
      let empty = v.drained (rw seen refl) in
      IsOrdered-added msg v (ground (arith, append_end t.wire (in_flight t.viewer) [] msg)) refl
        (ground arith) (ground arith) (ground arith)
]

prefix : (xs ys : List Bytes) → Subseq xs (xs ++ ys)
prefix xs ys =
    subst (λ zs. Subseq zs (xs ++ ys)) (append-nil xs)
      (Subseq-append (Subseq-refl xs) (Subseq-empty ys))

Step-IsOrdered : {t u : Relay} → Step t u → IsOrdered t → IsOrdered u
unfolding forwarded swapped closed
Step-IsOrdered {t} {u} (forwards msg now idle e) v = rw e (forwarded-IsOrdered t msg now idle v)
Step-IsOrdered {t} {u} (writes msg w free e) v =
    let empty = v.blocked (rw w refl) in
    rw e (
      IsOrdered-moved v (ground (arith, append-nil (t.wire ++ msg ∷ []))) refl refl v.drained
        (λ h. cc))
Step-IsOrdered {t} {u} (misses msg w free e) v =
    let empty = v.blocked (rw w refl) in
    rw e (
      IsOrdered-dropped t.wire (msg ∷ []) [] v (ground arith) (ground arith) refl (omega arith)
        v.drained (λ h. cc))
Step-IsOrdered {t} {u} (locks o e) v =
    rw e (IsOrdered-moved v (ground arith) refl refl v.drained v.blocked)
Step-IsOrdered {t} {u} (swaps ws now l e) v =
    rw e (IsOrdered-moved v (ground arith) refl refl (λ h. refl) (λ h. refl))
Step-IsOrdered {t} {u} (flushes msg rest f e) v =
    let later = rest ++ (t.session.buffer ++ in_hand t.agent) in
    rw e (
      IsOrdered-moved v (ground (arith, append_assoc t.wire (msg ∷ []) later)) refl refl v.drained
        v.blocked)
Step-IsOrdered {t} {u} (breaks msg rest f e) v = rw e (
    IsOrdered-dropped t.wire (msg ∷ rest) (t.session.buffer ++ in_hand t.agent) v (ground arith)
      refl refl refl v.drained v.blocked)
Step-IsOrdered {t} {u} (unlocks f e) v =
    rw e (IsOrdered-moved v (ground arith) refl refl v.drained v.blocked)
Step-IsOrdered {t} {u} (closes e) v = rw e (
    IsOrdered-dropped (t.wire ++ in_flight t.viewer) t.session.buffer (in_hand t.agent) v
      (sym (append_assoc t.wire (in_flight t.viewer) _))
      (sym (append_assoc t.wire (in_flight t.viewer) _)) refl refl (λ h. refl) (λ h. refl))

Reach-IsOrdered : {s t : Relay} → IsOrdered s → Reach s t → IsOrdered t
Reach-IsOrdered v here = v
Reach-IsOrdered v (next r st) = Step-IsOrdered st (Reach-IsOrdered v r)

start-IsOrdered : (a w : Bytes) (now : ℕ) → IsOrdered (start (new_session a w now))
start-IsOrdered a w now = record {
  ordered = Subseq.nil;
  counted = omega arith;
  drained = λ h. refl;
  blocked = λ h. refl;
}

-- In every state that the two goroutines reach from a new session, with writes that may fail and
-- the session closed at any time: what the browser was sent is, in the same order and without
-- repetition, a part of what the agent sent, and the frames written, held and dropped are as many
-- as those sent.
pub wire-Subseq :
    (a w : Bytes) (now : ℕ) {t : Relay}
    → Reach (start (new_session a w now)) t
    → Subseq t.wire t.sent × (length (accounted t) + t.lost ≡ length t.sent)
wire-Subseq a w now {t} r =
    let v = Reach-IsOrdered (start-IsOrdered a w now) r in
    (Subseq-trans v.ordered (prefix t.wire _), v.counted)
