-- ===== src/Validators/Hash.antt =====
-- A valid hash is one whose type is detected and whose bytes are hex digits.
use ahlyx_labs.Common.{
  ◌≡◌, ◌≢◌, refl, sym, ◌∙◌, not, ◌&&◌, if◌then◌else◌, ◌↔◌, Bool, true, false, [], ◌∷◌, Bytes, str,
  ◌==◌, length, All, arith, Bool-cases, ◌⊎◌, inl, inr,
}
use ahlyx_labs.Validators.{is_hex_char, all_hex, is_valid_hash, detect_hash_type}

all_hex_iff : (s : Bytes) → (all_hex s ≡ true) ↔ All (λ c. is_hex_char c ≡ true) s
unfolding all_hex
all_hex_iff [] = (λ h. tt, λ h. refl)
all_hex_iff (c ∷ s) = elim (Bool-cases (is_hex_char c)) [
  | inl e ↦ rw e (let (f, g) = all_hex_iff s in (λ h. (refl, f h), λ (r, h). g h))
  | inr e ↦ rw e (λ h. ground arith, λ (r, h). ground arith)
]

-- The length decides, or the bytes do.
length-cases :
    (s : Bytes)
    → ((is_valid_hash s ≡ all_hex s) × (detect_hash_type s ≢ str ""))
      ⊎ ((is_valid_hash s ≡ false) × (detect_hash_type s ≡ str ""))
unfolding is_valid_hash detect_hash_type
length-cases s = by_tests (length s == 32) (length s == 40) (length s == 64)
  where
    by_tests :
        (a b c : Bool)
        → (((if not a && not b && not c then false else all_hex s) ≡ all_hex s)
            × ((if a
                  then str "md5"
                  else if b
                  then str "sha1"
                  else if c
                  then str "sha256"
                  else str "")
                ≢ str ""))
          ⊎ (((if not a && not b && not c then false else all_hex s) ≡ false)
              × ((if a
                    then str "md5"
                    else if b
                    then str "sha1"
                    else if c
                    then str "sha256"
                    else str "")
                  ≡ str ""))
    by_tests true b c = inl (refl, λ e. ground arith)
    by_tests false true c = inl (refl, λ e. ground arith)
    by_tests false false true = inl (refl, λ e. ground arith)
    by_tests false false false = inr (refl, refl)

-- A text is a valid hash just when a type is detected for it, which is so for 32, 40 and 64 bytes, and
-- each of its bytes is a hex digit.
pub is_valid_hash_iff :
    (s : Bytes)
    → (is_valid_hash s ≡ true) ↔ ((detect_hash_type s ≢ str "") × All (λ c. is_hex_char c ≡ true) s)
is_valid_hash_iff s = elim (length-cases s) [
  | inl (h, d) ↦ let (f, g) = all_hex_iff s in (λ v. (d, f (sym h ∙ v)), λ (r, a). h ∙ g a)
  | inr (h, d) ↦ (λ v. ground arith, λ (r, a). absurd (r d))
]
