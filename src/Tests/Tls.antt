-- ===== src/Tests/Tls.antt =====
-- The TLS profile of a cluster on concrete inputs.
use netobserv_cli.Common.{◌≡◌, refl, false, true, [], ◌∷◌, none, some, arith}
use netobserv_cli.Text.{Bytes, codes}
use netobserv_cli.TlsResolver.{
  ProfileSpec, Libraries, TlsConfig, ProtocolVersion, Group, config_to_env_map,
}
use netobserv_cli.TlsResolver.Entries.{entry, read_entry, read-config_to_env_map}
use netobserv_cli.TlsResolver.Resolution.{Answer, resolve}
use netobserv_cli.TlsResolver.Usable.{
  IsUsable, AreUint16, AreSuites, IsAllOrNothing, resolve-IsAllOrNothing,
}

abbrev sample_spec : ProfileSpec
sample_spec = record {
  ciphers = codes "ECDHE-RSA-AES128-GCM-SHA256" ∷ [];
  groups = Group.x25519 ∷ [];
  min_tls_version = ProtocolVersion.tls12;
}

abbrev secure : TlsConfig
secure = record { min_version = 771; cipher_suites = 49199 ∷ 49200 ∷ []; curve_preferences = [] }

-- Two suites, and names that are IANA's already.
abbrev sample_libraries : Libraries
sample_libraries = record {
  secure_config = secure;
  profiles = λ _. sample_spec;
  openssl_to_iana = λ names. names;
  known_suites = (codes "ECDHE-RSA-AES128-GCM-SHA256", 49199) ∷ [];
  insecure_suites = (codes "AES128-SHA", 47) ∷ [];
}

read-config_to_env_map_example :
    let env = config_to_env_map (some secure) in
    (read_entry (entry (codes "TLS_MIN_VERSION") env) ≡ some (771 ∷ []))
    × (read_entry (entry (codes "TLS_CIPHER_SUITES") env) ≡ some (49199 ∷ 49200 ∷ []))
    × (read_entry (entry (codes "TLS_CURVE_PREFERENCES") env) ≡ some [])
read-config_to_env_map_example =
    read-config_to_env_map secure (omega arith) (omega arith, (omega arith, tt)) tt

sample_IsUsable : IsUsable secure
sample_IsUsable = record {
  has_version = omega arith;
  version_fits = omega arith;
  has_suites = refl;
  suites_fit = (omega arith, (omega arith, tt));
  curves_fit = tt;
}

sample_AreSuites : AreSuites sample_libraries
unfolding AreUint16
sample_AreSuites = record { known = (omega arith, tt); insecure = (omega arith, tt) }

-- A cluster without an APIServer object.
resolve-IsAllOrNothing_example : IsAllOrNothing none (
    resolve sample_libraries
      (λ (object : Bytes). none)
      (λ _. none)
      true
      Answer.not_found
      false
      false
      none)
resolve-IsAllOrNothing_example =
    resolve-IsAllOrNothing sample_libraries sample_IsUsable sample_AreSuites
      (λ (object : Bytes). none) (λ _. none) true Answer.not_found false false none
