-- ===== src/Services/Ssl.antt =====
-- services/ssl.go. The answer of the TLS library, time.Until in days, and the layout of RFC 3339 are
-- arguments.
use ahlyx_labs.Common.{
  ℕ, ◌/◌, ◌%◌, ◌+◌, Bool, true, false, not, ◌&&◌, ◌||◌, Option, none, some, is_some, List, [], ◌∷◌,
  ◌++◌, inl, inr, Bytes, str, str_eq, strip_prefix, ltb, ◌==◌, if◌then◌else◌, ℤ, pos, leb_ℤ,
}
use ahlyx_labs.Net.{Ip}
use ahlyx_labs.Outbound.{resolve_public_target}
use ahlyx_labs.Services.{Reply, found, failed}

-- models.SSLData.
pub record SslData : Type 0 where
  pub is_valid : Option Bool
  pub issuer : Option Bytes
  pub subject : Option Bytes
  pub expires_at : Option Bytes
  pub days_until_expiry : Option ℤ
  pub is_expiring_soon : Option Bool
  pub tls_version : Option Bytes
  pub is_self_signed : Option Bool

pub record Certificate : Type 0 where
  pub not_after : ℕ
  pub issuer_organization : List Bytes
  pub subject_organization : List Bytes
  pub common_name : Bytes

-- What tls.DialWithDialer comes to: the text of the error, or the certificates and the version.
pub data Dialed : Type 0 where
  not_dialed : Bytes → Dialed
  dialed : List Certificate → ℕ → Dialed

abbrev hex_digit : ℕ → ℕ
hex_digit d = if ltb d 10 then b'0' + d else 87 + d

-- `%04x` of a uint16.
abbrev hex4 : ℕ → Bytes
hex4 v =
    hex_digit (v / 4096)
    ∷ hex_digit (v / 256 % 16)
    ∷ hex_digit (v / 16 % 16)
    ∷ hex_digit (v % 16)
    ∷ []

unfoldable pub tls_version_string : ℕ → Bytes
tls_version_string v =
    if v == 0x0301
    then str "TLSv1.0"
    else if v == 0x0302
    then str "TLSv1.1"
    else if v == 0x0303
    then str "TLSv1.2"
    else if v == 0x0304
    then str "TLSv1.3"
    else str "TLS 0x" ++ hex4 v

-- strings.Contains.
unfoldable pub contains_text : Bytes → Bytes → Bool
contains_text s [] = is_some (strip_prefix s [])
contains_text s (c ∷ t) = is_some (strip_prefix s (c ∷ t)) || contains_text s t

-- Of the text of an error that is not nil.
unfoldable pub is_cert_verification_err : Bytes → Bool
unfolding contains_text
is_cert_verification_err e =
    contains_text (str "certificate") e
    || contains_text (str "x509") e
    || contains_text (str "tls:") e

pub record Tls : Type 0 where
  pub resolver : Bytes → Option (List Ip)
  pub dial : Ip → Bytes → Dialed
  pub days_until : ℕ → ℤ
  pub rfc3339 : ℕ → Bytes

abbrev first_or : Bytes → List Bytes → Bytes
first_or other [] = other
first_or other (s ∷ ss) = s

abbrev name_or : Bytes → Bytes → Bytes
name_or other [] = other
name_or other (c ∷ s) = c ∷ s

unfoldable pub ssl_data : Tls → Bytes → Certificate → ℕ → SslData
unfolding tls_version_string
ssl_data tls domain cert version =
    let days = tls.days_until cert.not_after in
    let issuer_org = first_or (str "Unknown") cert.issuer_organization in
    let subject_org = first_or [] cert.subject_organization in
    record {
      is_valid = some true;
      issuer = some issuer_org;
      subject = some (name_or domain cert.common_name);
      expires_at = some (tls.rfc3339 cert.not_after);
      days_until_expiry = some days;
      is_expiring_soon = some (leb_ℤ days (pos 30));
      tls_version = some (tls_version_string version);
      is_self_signed =
          some (str_eq issuer_org subject_org && not (str_eq issuer_org (str "Unknown")));
    }

abbrev invalid_data : SslData
invalid_data = record {
  is_valid = some false;
  issuer = none;
  subject = none;
  expires_at = none;
  days_until_expiry = none;
  is_expiring_soon = none;
  tls_version = none;
  is_self_signed = none;
}

abbrev on_dialed : Tls → ℕ → Bytes → Dialed → Reply SslData
on_dialed tls now domain (not_dialed e) =
    if is_cert_verification_err e
    then found (str "ssl") now invalid_data
    else failed (str "ssl") now (str "SSL certificate lookup unavailable")
on_dialed tls now domain (dialed [] version) = failed (str "ssl") now (str "no peer certificates")
on_dialed tls now domain (dialed (cert ∷ certs) version) =
    found (str "ssl") now (ssl_data tls domain cert version)

-- The first of the vetted addresses is dialled, and there is one where the target is accepted.
unfoldable pub fetch_ssl : Tls → ℕ → Bytes → Reply SslData
unfolding is_cert_verification_err ssl_data
fetch_ssl tls now domain = elim (resolve_public_target tls.resolver domain) [
  | inl e ↦ failed (str "ssl") now (str "SSL certificate lookup unavailable")
  | inr [] ↦ failed (str "ssl") now (str "SSL certificate lookup unavailable")
  | inr (ip ∷ ips) ↦ on_dialed tls now domain (tls.dial ip domain)
]
