-- ===== src/Origin/Shape.antt =====
-- Which origins a browser is answered for.
use ahlyx_labs.Common.{
  ℕ, ◌≡◌, refl, ◌⊎◌, inl, inr, Bool, true, false, not, ◌||◌, Option, none, some, [], ◌∷◌, ◌++◌,
  Bytes, str, str_eq, str_eq_iff, strip_prefix, strip_prefix_sound, ◌==◌, if◌then◌else◌, ◌>>=◌,
  arith, all, ap, ◌∙◌, subst,
}
use ahlyx_labs.Origin.{
  strip_suffix, between, is_label_char, is_hashed, is_git, matches, preview_suffix, onto,
  ahlyx_hashed_preview_origin, ahlyx_git_preview_origin, is_allowed_browser_origin, is_other,
  origin_production, origin_preview, origin_other,
}
use mathlib.Core.Option.{some-injective}

abbrev pub is_host_char : ℕ → Bool
is_host_char c = is_label_char c || c == b'-'

is_hashed-all : (b : Bool) (s : Bytes) → is_hashed b s ≡ true → all is_host_char s ≡ true
unfolding is_hashed
is_hashed-all b [] h = refl
is_hashed-all b (c ∷ s) h = ground (arith, is_hashed-all true s)

is_git-all : (b : Bool) (s : Bytes) → is_git b s ≡ true → all is_host_char s ≡ true
unfolding is_git
is_git-all b [] h = refl
is_git-all b (c ∷ s) h = ground (arith, is_git-all true s, is_git-all false s)

onto-some :
    (c : ℕ) (o : Option Bytes) (m : Bytes)
    → onto c o ≡ some m
    → (r : Bytes) × (o ≡ some r) × (m ≡ c ∷ r)
onto-some c none m h = ground arith
onto-some c (some r) m h = (r, refl, ground arith)

strip_suffix_sound : (t s m : Bytes) → strip_suffix t s ≡ some m → s ≡ m ++ t
unfolding strip_suffix
strip_suffix_sound t [] m = λ h. ground (arith, str_eq_iff [] t)
strip_suffix_sound t (c ∷ s) m =
    round (str_eq (c ∷ s) t) ((str_eq_iff (c ∷ s) t).0) (strip_suffix_sound t s)
  where
    round :
        (b : Bool)
        → (b ≡ true → c ∷ s ≡ t)
        → ((r : Bytes) → strip_suffix t s ≡ some r → s ≡ r ++ t)
        → (if b then some [] else onto c (strip_suffix t s)) ≡ some m
        → c ∷ s ≡ m ++ t
    round true eq later h = subst (λ m'. c ∷ s ≡ m' ++ t) (some-injective [] m h) (eq refl)
    round false eq later h =
        let (r, e, e') = onto-some c (strip_suffix t s) m h in rw (e', later r e) refl

between_sound : (p t s m : Bytes) → between p t s ≡ some m → s ≡ p ++ (m ++ t)
unfolding between
between_sound p t s m = round (strip_prefix p s) (strip_prefix_sound p s)
  where
    round :
        (o : Option Bytes)
        → ((r : Bytes) → o ≡ some r → s ≡ p ++ r)
        → (o >>= strip_suffix t) ≡ some m
        → s ≡ p ++ (m ++ t)
    round none eq h = ground arith
    round (some r) eq h = eq r refl ∙ ap (λ r'. p ++ r') (strip_suffix_sound t r m h)

-- A preview of this project: one label of Vercel's between the project's name and the team's.
abbrev pub IsProjectPreview : Bytes → Type 0
IsProjectPreview origin =
    (middle : Bytes) × (origin ≡ str "https://ahlyx-labs-" ++ (middle ++ preview_suffix))
    × (all is_host_char middle ≡ true)

matches_sound :
    (test : Bytes → Bool) (o : Option Bytes)
    → matches test o ≡ true
    → (m : Bytes) × (o ≡ some m) × (test m ≡ true)
matches_sound test none h = ground arith
matches_sound test (some m) h = (m, refl, h)

hashed-IsProjectPreview :
    (origin : Bytes) → ahlyx_hashed_preview_origin origin ≡ true → IsProjectPreview origin
unfolding ahlyx_hashed_preview_origin
hashed-IsProjectPreview origin h =
    let (m, e, t) =
      matches_sound (is_hashed false) (between (str "https://ahlyx-labs-") preview_suffix origin)
        h in
    (
      m,
      between_sound (str "https://ahlyx-labs-") preview_suffix origin m e,
      is_hashed-all false m t,
    )

git-IsProjectPreview :
    (origin : Bytes) → ahlyx_git_preview_origin origin ≡ true → IsProjectPreview origin
unfolding ahlyx_git_preview_origin
git-IsProjectPreview origin h =
    let (m, e, t) =
      matches_sound (is_git false) (between (str "https://ahlyx-labs-git-") preview_suffix origin)
        h in
    (
      str "git-" ++ m,
      between_sound (str "https://ahlyx-labs-git-") preview_suffix origin m e,
      is_git-all false m t,
    )

-- A browser is only answered for the two production sites, exactly, and for origins over https whose
-- host is one label of lower-case letters, digits and dashes between `ahlyx-labs-` and
-- `-ahlyx-labs.vercel.app`: no other host, port or path of an attacker's can stand in it.
pub is_allowed_browser_origin-IsOwn :
    (origin : Bytes)
    → is_allowed_browser_origin origin ≡ true
    → (origin ≡ str "https://ahlyxlabs.com")
      ⊎ (origin ≡ str "https://www.ahlyxlabs.com")
      ⊎ IsProjectPreview origin
unfolding is_allowed_browser_origin
is_allowed_browser_origin-IsOwn origin =
    round (str_eq origin (str "https://ahlyxlabs.com"))
      (str_eq origin (str "https://www.ahlyxlabs.com")) (ahlyx_hashed_preview_origin origin)
      (ahlyx_git_preview_origin origin) ((str_eq_iff origin (str "https://ahlyxlabs.com")).0)
      ((str_eq_iff origin (str "https://www.ahlyxlabs.com")).0) (hashed-IsProjectPreview origin)
      (git-IsProjectPreview origin)
  where
    round :
        (a b c d : Bool)
        → (a ≡ true → origin ≡ str "https://ahlyxlabs.com")
        → (b ≡ true → origin ≡ str "https://www.ahlyxlabs.com")
        → (c ≡ true → IsProjectPreview origin)
        → (d ≡ true → IsProjectPreview origin)
        → not (
            is_other (
              if a || b
              then origin_production
              else if c || d
              then origin_preview
              else origin_other))
          ≡ true
        → (origin ≡ str "https://ahlyxlabs.com")
          ⊎ (origin ≡ str "https://www.ahlyxlabs.com")
          ⊎ IsProjectPreview origin
    round true b c d ha hb hc hd h = inl (ha refl)
    round false true c d ha hb hc hd h = inr (inl (hb refl))
    round false false true d ha hb hc hd h = inr (inr (hc refl))
    round false false false true ha hb hc hd h = inr (inr (hd refl))
    round false false false false ha hb hc hd h = ground arith
