-- ===== src/Common/Assoc.antt =====
-- Go maps with string keys, as association lists: `m[k]`, `m[k] = v`, `delete(m, k)`, and the
-- deletion of entries while ranging over the map.
use mathlib.Core.Path.{◌≡◌, refl}
use mathlib.Core.Bool.{Bool}
use mathlib.Core.Option.{Option, none, some}
use mathlib.Core.List.{List, [], ◌∷◌}
use native.Mathlib.Omega.{arith}
use ahlyx_labs.Common.Tests.{if◌then◌else◌}
use ahlyx_labs.Common.Text.{Bytes, str_eq, str_eq_iff}

abbrev pub Table {ℓ} : Type ℓ → Type ℓ
Table V = List (Bytes × V)

module _ {ℓ} {V : Type ℓ} where
  unfoldable pub lookup : Bytes → Table V → Option V
  lookup j [] = none
  lookup j ((k, v) ∷ m) = if str_eq k j then some v else lookup j m

  unfoldable pub insert : Bytes → V → Table V → Table V
  insert k v [] = (k, v) ∷ []
  insert k v ((j, w) ∷ m) = if str_eq k j then (k, v) ∷ m else (j, w) ∷ insert k v m

  unfoldable pub delete : Bytes → Table V → Table V
  delete k [] = []
  delete k ((j, w) ∷ m) = if str_eq k j then delete k m else (j, w) ∷ delete k m

  -- `for k, v := range m { if !keep(v) { delete(m, k) } }`
  unfoldable pub sweep : (V → Bool) → Table V → Table V
  sweep keep [] = []
  sweep keep ((j, w) ∷ m) = if keep w then (j, w) ∷ sweep keep m else sweep keep m

  -- Each key has one entry.
  abbrev pub Distinct : Table V → Type ℓ
  Distinct [] = Unit
  Distinct ((k, v) ∷ m) = (lookup k m ≡ none) × Distinct m

  abbrev pub kept : (V → Bool) → Option V → Option V
  kept keep none = none
  kept keep (some v) = if keep v then some v else none

  pub lookup-insert :
      (k j : Bytes) (v : V) (m : Table V)
      → lookup j (insert k v m) ≡ (if str_eq k j then some v else lookup j m)
  unfolding lookup insert
  lookup-insert k j v [] = refl
  lookup-insert k j v ((i, w) ∷ m) =
      ground (arith, str_eq_iff k j, str_eq_iff i j, str_eq_iff k i, lookup-insert k j v m)

  pub lookup-delete :
      (k j : Bytes) (m : Table V)
      → lookup j (delete k m) ≡ (if str_eq k j then none else lookup j m)
  unfolding lookup delete
  lookup-delete k j [] = ground arith
  lookup-delete k j ((i, w) ∷ m) =
      ground (arith, str_eq_iff k j, str_eq_iff i j, str_eq_iff k i, lookup-delete k j m)

  lookup-sweep-none :
      (keep : V → Bool) (j : Bytes) (m : Table V)
      → lookup j m ≡ none
      → lookup j (sweep keep m) ≡ none
  unfolding lookup sweep
  lookup-sweep-none keep j [] h = refl
  lookup-sweep-none keep j ((i, w) ∷ m) h = ground (arith, lookup-sweep-none keep j m)

  pub lookup-sweep :
      (keep : V → Bool) (j : Bytes) (m : Table V)
      → Distinct m
      → lookup j (sweep keep m) ≡ kept keep (lookup j m)
  unfolding lookup sweep
  lookup-sweep keep j [] d = refl
  lookup-sweep keep j ((i, w) ∷ m) d =
      ground (arith, str_eq_iff i j, lookup-sweep keep j m d.1, lookup-sweep-none keep j m)

  pub insert-Distinct : (k : Bytes) (v : V) (m : Table V) → Distinct m → Distinct (insert k v m)
  unfolding insert lookup
  insert-Distinct k v [] d = (refl, tt)
  insert-Distinct k v ((i, w) ∷ m) d =
      ground (arith, str_eq_iff k i, insert-Distinct k v m d.1, lookup-insert k i v m)

  pub delete-Distinct : (k : Bytes) (m : Table V) → Distinct m → Distinct (delete k m)
  unfolding delete lookup
  delete-Distinct k [] d = tt
  delete-Distinct k ((i, w) ∷ m) d = ground (arith, delete-Distinct k m d.1, lookup-delete k i m)

  pub sweep-Distinct : (keep : V → Bool) (m : Table V) → Distinct m → Distinct (sweep keep m)
  unfolding sweep
  sweep-Distinct keep [] d = tt
  sweep-Distinct keep ((i, w) ∷ m) d =
      ground (arith, sweep-Distinct keep m d.1, lookup-sweep-none keep i m)
