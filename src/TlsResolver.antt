-- ===== src/TlsResolver.antt =====
-- The TLS profile of the cluster: internal/pkg/tlsresolver/config.go, and the calls of resolve.go.
pub mod Entries
pub mod Resolution
pub mod Usable
use netobserv_cli.Common.{
  ℕ, ◌==◌, Bool, true, false, List, [], ◌∷◌, ◌++◌, map, Option, none, some, if◌then◌else◌,
}
use netobserv_cli.Text.{Bytes, codes, eq_bytes, is_empty, join}
use netobserv_cli.Text.Numbers.{format_uint}
use netobserv_cli.GenericMap.{GenericMap}

-- The string constants of OpenShift's API, and any other string.
pub data ProfileType : Type 0 where
  old intermediate modern custom : ProfileType
  other_type : Bytes → ProfileType

pub data ProtocolVersion : Type 0 where
  tls10 tls11 tls12 tls13 : ProtocolVersion
  other_version : Bytes → ProtocolVersion

pub data Group : Type 0 where
  x25519 secp256r1 secp384r1 secp521r1 : Group
  x25519_mlkem768 secp256r1_mlkem768 secp384r1_mlkem1024 : Group
  other_group : Bytes → Group

-- `configv1.TLSProfileSpec` and `configv1.TLSSecurityProfile`.
pub record ProfileSpec : Type 0 where
  pub ciphers : List Bytes
  pub groups : List Group
  pub min_tls_version : ProtocolVersion

pub record SecurityProfile : Type 0 where
  pub type : ProfileType
  pub custom_spec : Option ProfileSpec

-- The fields of a `tls.Config` that are read or written.
pub record TlsConfig : Type 0 where
  pub min_version : ℕ
  pub cipher_suites : List ℕ
  pub curve_preferences : List ℕ

-- What the libraries give: `crypto.SecureTLSConfig` of an empty config, `configv1.TLSProfiles` at the
-- types that are looked up, `crypto.OpenSSLToIANACipherSuites`, and the suites of `crypto/tls`.
pub record Libraries : Type 0 where
  pub secure_config : TlsConfig
  pub profiles : ProfileType → ProfileSpec
  pub openssl_to_iana : List Bytes → List Bytes
  pub known_suites : List (Bytes × ℕ)
  pub insecure_suites : List (Bytes × ℕ)

unfoldable pub curve_id_by_group : Group → Option ℕ
curve_id_by_group x25519 = some 29
curve_id_by_group secp256r1 = some 23
curve_id_by_group secp384r1 = some 24
curve_id_by_group secp521r1 = some 25
curve_id_by_group x25519_mlkem768 = some 4588
curve_id_by_group secp256r1_mlkem768 = some 4587
curve_id_by_group secp384r1_mlkem1024 = some 4589
curve_id_by_group (other_group name) = none

-- An error is `none`; with it comes the version 0.
unfoldable pub tls_version_from_string : ProtocolVersion → Option ℕ
tls_version_from_string tls10 = some 769
tls_version_from_string tls11 = some 770
tls_version_from_string tls12 = some 771
tls_version_from_string tls13 = some 772
tls_version_from_string (other_version name) = none

-- The first suite of the name, and what follows where there is none.
unfoldable pub suite_named : Bytes → List (Bytes × ℕ) → ℕ → ℕ
suite_named name [] next = next
suite_named name ((n, id) ∷ suites) next =
    let rest = suite_named name suites next in if eq_bytes n name then id else rest

unfoldable pub cipher_suite_by_name : Libraries → Bytes → ℕ
cipher_suite_by_name lib name =
    suite_named name lib.known_suites (suite_named name lib.insecure_suites 0)

unfoldable pub suite_ids : Libraries → List Bytes → List ℕ
suite_ids lib [] = []
suite_ids lib (name ∷ names) =
    let rest = suite_ids lib names in
    let id = cipher_suite_by_name lib name in if id == 0 then rest else id ∷ rest

unfoldable pub prepend_some : Option ℕ → List ℕ → List ℕ
prepend_some none ids = ids
prepend_some (some id) ids = id ∷ ids

unfoldable pub curve_ids : List Group → List ℕ
curve_ids [] = []
curve_ids (group ∷ groups) = prepend_some (curve_id_by_group group) (curve_ids groups)

-- The part of the switch that chooses a spec; an error is `none`.
unfoldable pub spec_of : Libraries → SecurityProfile → Option ProfileSpec
spec_of lib p = elim p.type as (λ _. Option ProfileSpec) [
  | old ↦ some (lib.profiles old)
  | intermediate ↦ some (lib.profiles intermediate)
  | modern ↦ some (lib.profiles modern)
  | custom ↦ p.custom_spec
  | other_type name ↦ none
]

unfoldable pub or_zero : Option ℕ → ℕ
or_zero none = 0
or_zero (some n) = n

unfoldable pub is_error : Option ℕ → Bool
is_error none = true
is_error (some n) = false

-- The values of `profileToTLSConfig`, and whether an error comes with them.
unfoldable pub settings_of : Libraries → Option ProfileSpec → TlsConfig × Bool
settings_of lib none =
    (record { min_version = 0; cipher_suites = []; curve_preferences = [] }, true)
settings_of lib (some spec) = (
  record {
    min_version = or_zero (tls_version_from_string spec.min_tls_version);
    cipher_suites = suite_ids lib (lib.openssl_to_iana spec.ciphers);
    curve_preferences = curve_ids spec.groups;
  },
  is_error (tls_version_from_string spec.min_tls_version),
)

unfoldable pub profile_to_tls_config : Libraries → SecurityProfile → TlsConfig × Bool
profile_to_tls_config lib p = settings_of lib (spec_of lib p)

unfoldable pub override : TlsConfig → TlsConfig → TlsConfig
override base c = record {
  min_version = if c.min_version == 0 then base.min_version else c.min_version;
  cipher_suites = if is_empty c.cipher_suites then base.cipher_suites else c.cipher_suites;
  curve_preferences =
      if is_empty c.curve_preferences then base.curve_preferences else c.curve_preferences;
}

-- `ComposeTLSConfig`; a nil profile is `none`.
unfoldable pub compose_tls_config : Libraries → Option SecurityProfile → TlsConfig × Bool
compose_tls_config lib none = (lib.secure_config, false)
compose_tls_config lib (some p) =
    let (c, failed) = profile_to_tls_config lib p in (override lib.secure_config c, failed)

abbrev pub EnvMap : Type 0
EnvMap = List (Bytes × Bytes)

unfoldable pub uint16_slice_to_string : List ℕ → Bytes
uint16_slice_to_string ids = join b',' (map format_uint ids)

-- An entry of the map, which is left out where its list of numbers is empty.
unfoldable pub ids_entry : Bytes → List ℕ → EnvMap
ids_entry key [] = []
ids_entry key (id ∷ ids) = (key, uint16_slice_to_string (id ∷ ids)) ∷ []

-- `ConfigToEnvMap`; a nil config is `none`.
unfoldable pub config_to_env_map : Option TlsConfig → EnvMap
config_to_env_map none = []
config_to_env_map (some c) =
    (if c.min_version == 0 then [] else (codes "TLS_MIN_VERSION", format_uint c.min_version) ∷ [])
    ++ ids_entry (codes "TLS_CIPHER_SUITES") c.cipher_suites
    ++ ids_entry (codes "TLS_CURVE_PREFERENCES") c.curve_preferences
