-- ===== src/Services/Whois.antt =====
-- services/whois.go. The WHOIS libraries, time.Parse with one of the layouts, and time.Since in days
-- are arguments.
use ahlyx_labs.Common.{
  ℕ, Bool, Option, none, some, List, [], ◌∷◌, ◌⊎◌, inl, inr, Bytes, str, ℤ, pos, ltb_ℤ,
}
use ahlyx_labs.Verdict.Space.{trim_space}
use ahlyx_labs.Services.{Reply, found, failed}

-- models.WhoisData.
pub record WhoisData : Type 0 where
  pub registrar : Option Bytes
  pub creation_date : Option Bytes
  pub expiration_date : Option Bytes
  pub last_updated : Option Bytes
  pub domain_age_days : Option ℤ
  pub is_newly_registered : Option Bool

-- The dates of the library's `Domain`.
pub record Dates : Type 0 where
  pub created_date : Bytes
  pub expiration_date : Bytes
  pub updated_date : Bytes

-- `registrar` is the name, if there is a registrar.
pub record Parsed : Type 0 where
  pub domain : Option Dates
  pub registrar : Option Bytes

-- On the left the texts of errors.
pub record Registry : Type 0 where
  pub whois : Bytes → Bytes ⊎ Bytes
  pub parse : Bytes → Bytes ⊎ Parsed
  pub parse_time : Bytes → Bytes → Option ℕ
  pub days_since : ℕ → ℤ

abbrev not_empty : Bytes → Option Bytes
not_empty [] = none
not_empty (c ∷ s) = some (c ∷ s)

unfoldable pub normalize_date : Bytes → Option Bytes
normalize_date s = not_empty (trim_space s)

abbrev layouts : List Bytes
layouts =
    str "2006-01-02T15:04:05Z"
    ∷ str "2006-01-02T15:04:05-07:00"
    ∷ str "2006-01-02"
    ∷ str "02-Jan-2006"
    ∷ str "2006.01.02"
    ∷ str "2006-01-02T15:04:05Z07:00"
    ∷ []

abbrev age_by : Registry → Bytes → List Bytes → Option ℤ
age_by r date [] = none
age_by r date (layout ∷ more) = elim (r.parse_time layout date) [
  | some t ↦ some (r.days_since t)
  | none ↦ age_by r date more
]

unfoldable pub calc_age_days : Registry → Option Bytes → Option ℤ
calc_age_days r none = none
calc_age_days r (some date) = age_by r date layouts

abbrev is_new : Option ℤ → Option Bool
is_new none = none
is_new (some days) = some (ltb_ℤ days (pos 30))

abbrev registrar_of : Option Bytes → Option Bytes
registrar_of none = none
registrar_of (some name) = not_empty name

abbrev whois_data : Registry → Dates → Option Bytes → WhoisData
whois_data r dates registrar =
    let created = normalize_date dates.created_date in
    let age = calc_age_days r created in
    record {
      registrar = registrar_of registrar;
      creation_date = created;
      expiration_date = normalize_date dates.expiration_date;
      last_updated = normalize_date dates.updated_date;
      domain_age_days = age;
      is_newly_registered = is_new age;
    }

abbrev on_parsed : Registry → ℕ → Parsed → Reply WhoisData
on_parsed r now p = elim p.domain [
  | none ↦ failed (str "whois") now (str "no domain data in WHOIS response")
  | some dates ↦ found (str "whois") now (whois_data r dates p.registrar)
]

abbrev on_raw : Registry → ℕ → Bytes ⊎ Bytes → Reply WhoisData
on_raw r now (inl e) = failed (str "whois") now e
on_raw r now (inr raw) = elim (r.parse raw) [
  | inl e ↦ failed (str "whois") now e
  | inr p ↦ on_parsed r now p
]

unfoldable pub fetch_whois : Registry → ℕ → Bytes → Reply WhoisData
unfolding normalize_date calc_age_days
fetch_whois r now domain = on_raw r now (r.whois domain)
