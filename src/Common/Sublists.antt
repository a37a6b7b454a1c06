-- ===== src/Common/Sublists.antt =====
-- `Subseq xs ys`: `xs` is `ys` with some elements left out.
use Prim.Native.Nat.{◌≤◌}
use mathlib.Core.Path.{◌≡◌, refl, ap}
use mathlib.Core.List.{List, [], ◌∷◌, ◌++◌}
use native.Mathlib.Omega.{arith}
use ahlyx_labs.Common.Lists.{length}

pub data Subseq {ℓ} {A : Type ℓ} : List A → List A → Type ℓ where
  nil : Subseq [] []
  skip : {x : A} {xs ys : List A} → Subseq xs ys → Subseq xs (x ∷ ys)
  pick : {x : A} {xs ys : List A} → Subseq xs ys → Subseq (x ∷ xs) (x ∷ ys)

module _ {ℓ} {A : Type ℓ} where
  pub Subseq-refl : (xs : List A) → Subseq xs xs
  Subseq-refl [] = Subseq.nil
  Subseq-refl (x ∷ xs) = Subseq.pick (Subseq-refl xs)

  pub Subseq-empty : (ys : List A) → Subseq [] ys
  Subseq-empty [] = Subseq.nil
  Subseq-empty (y ∷ ys) = Subseq.skip (Subseq-empty ys)

  pub Subseq-append :
      {xs ys us vs : List A} → Subseq xs ys → Subseq us vs → Subseq (xs ++ us) (ys ++ vs)
  Subseq-append Subseq.nil r = r
  Subseq-append (Subseq.skip s) r = Subseq.skip (Subseq-append s r)
  Subseq-append (Subseq.pick s) r = Subseq.pick (Subseq-append s r)

  pub Subseq-trans : {ys zs : List A} {xs : List A} → Subseq ys zs → Subseq xs ys → Subseq xs zs
  Subseq-trans Subseq.nil s = s
  Subseq-trans (Subseq.skip r) s = Subseq.skip (Subseq-trans r s)
  Subseq-trans (Subseq.pick r) (Subseq.skip s) = Subseq.skip (Subseq-trans r s)
  Subseq-trans (Subseq.pick r) (Subseq.pick s) = Subseq.pick (Subseq-trans r s)

  pub length-Subseq-le : {xs ys : List A} → Subseq xs ys → length xs ≤ length ys
  length-Subseq-le Subseq.nil = omega arith
  length-Subseq-le (Subseq.skip s) = omega (arith, length-Subseq-le s)
  length-Subseq-le (Subseq.pick s) = omega (arith, length-Subseq-le s)

  -- Nothing is left out if the lengths agree.
  pub Subseq-eq : {xs ys : List A} → Subseq xs ys → length xs ≡ length ys → xs ≡ ys
  Subseq-eq Subseq.nil e = refl
  Subseq-eq (Subseq.skip s) e = absurd (omega (arith, length-Subseq-le s))
  Subseq-eq (Subseq.pick {x} s) e = ap (◌∷◌ x) (Subseq-eq s (omega arith))
