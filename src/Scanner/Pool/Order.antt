-- ===== src/Scanner/Pool/Order.antt =====
-- Whatever the workers' order, a pool that has ended has the results of all tasks.
use mathlib.Core.List.{Perm, append-nil, append_assoc}
use mathlib.Core.List.Perm
use mathlib.Core.List.Permᴰ
use ahlyx_labs.Common.{
  ◌≡◌, refl, sym, ap, subst, ◌∙◌, ℕ, ◌+◌, Bool, List, [], ◌∷◌, ◌++◌, length, ◌*◌,
}
use ahlyx_labs.Scanner.Pool.{Task, PortResult, work, works, Pool, pool, start, Step, Reach}

-- What is found already and will be.
outcome : (Task → Bool) → Pool → List PortResult
outcome dials p = p.results ++ (works dials p.busy ++ works dials p.tasks)

pub works-append :
    (dials : Task → Bool) (ts us : List Task)
    → works dials (ts ++ us) ≡ works dials ts ++ works dials us
unfolding works
works-append dials [] us = refl
works-append dials (t ∷ ts) us =
    ap (λ l. work dials t ++ l) (works-append dials ts us)
    ∙ sym (append_assoc (work dials t) (works dials ts) (works dials us))

module _ {ℓ} {A : Type ℓ} where
  append-swap : (a b c : List A) → Perm (a ++ (b ++ c)) (b ++ (a ++ c))
  append-swap a b c =
      subst (λ l. Perm l (b ++ (a ++ c))) (append_assoc a b c)
        (subst (Perm (a ++ b ++ c)) (append_assoc b a c)
          (Perm.append_right c ∣ Permᴰ.append_comm a b ∣₁))

takes-Perm : (a b c d : List PortResult) → Perm (a ++ (b ++ (c ++ d))) (a ++ ((c ++ b) ++ d))
takes-Perm a b c d =
    subst (λ l. Perm (a ++ (b ++ (c ++ d))) (a ++ l)) (sym (append_assoc c b d))
      (Perm.append_left a (append-swap b c d))

sends-Perm :
    (a b c d e : List PortResult) → Perm (a ++ ((b ++ (c ++ d)) ++ e)) ((a ++ c) ++ ((b ++ d) ++ e))
sends-Perm a b c d e =
    subst (Perm (a ++ ((b ++ (c ++ d)) ++ e)))
      (ap (λ l. a ++ l) (append_assoc c (b ++ d) e) ∙ sym (append_assoc a c ((b ++ d) ++ e)))
      (Perm.append_left a (Perm.append_right e (append-swap b c d)))

outcome-step :
    (dials : Task → Bool) (p q : Pool) → Step dials p q → Perm (outcome dials p) (outcome dials q)
unfolding outcome works
outcome-step dials _ _ (Step.takes t ts busy rs h) =
    takes-Perm rs (works dials busy) (work dials t) (works dials ts)
outcome-step dials _ _ (Step.sends t ts before after rs) =
    rw (works-append dials before (t ∷ after), works-append dials before after)
      (sends-Perm rs (works dials before) (work dials t) (works dials after) (works dials ts))

outcome-reach :
    (dials : Task → Bool) (p q : Pool) → Reach dials p q → Perm (outcome dials p) (outcome dials q)
outcome-reach dials _ _ (Reach.stays p) = Perm.rfl
outcome-reach dials _ _ (Reach.goes p q r s t) =
    Perm.trans (outcome-step dials p q s) (outcome-reach dials q r t)

-- However the workers take turns, when the queue is empty and no worker is busy, the results are a
-- permutation of those of the tasks one after another.
pub ended-Perm :
    (dials : Task → Bool) (ts : List Task) (rs : List PortResult)
    → Reach dials (start ts) (pool [] [] rs)
    → Perm (works dials ts) rs
unfolding outcome works
ended-Perm dials ts rs h =
    subst (Perm (works dials ts)) (append-nil rs) (outcome-reach dials (start ts) (pool [] [] rs) h)

-- The takes and sends that remain.
abbrev pub remaining : Pool → ℕ
remaining p = 2 * length p.tasks + length p.busy
