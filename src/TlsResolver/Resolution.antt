-- ===== src/TlsResolver/Resolution.antt =====
-- `Resolve`, `fetchTLSProfile` and `applyConfigMap` of internal/pkg/tlsresolver/resolve.go, between
-- the answers of the Kubernetes API, as they call each other.
use netobserv_cli.Common.{Bool, true, false, [], ◌∷◌, Option, none, some, if◌then◌else◌}
use netobserv_cli.Text.{is_empty}
use netobserv_cli.GenericMap.{GenericMap}
use netobserv_cli.TlsResolver.{
  ProfileType, other_type, intermediate, SecurityProfile, Libraries, EnvMap, compose_tls_config,
  config_to_env_map,
}

-- The API refuses a read, has no such object, or gives it.
pub data Answer (A : Type 0) : Type 0 where
  refused not_found : Answer A
  found : A → Answer A

unfoldable pub intermediate_profile : SecurityProfile
intermediate_profile = record { type = intermediate; custom_spec = none }

unfoldable pub without_type : ProfileType → Bool
without_type (other_type name) = is_empty name
without_type _ = false

-- The decoded profile; an error is `none`.
unfoldable pub decoded_profile : Option SecurityProfile → Option SecurityProfile
decoded_profile none = none
decoded_profile (some p) = some (if without_type p.type then intermediate_profile else p)

-- `.spec.tlsSecurityProfile` of the object: an error, no such field, or its fields.
unfoldable pub profile_of_spec :
    (GenericMap → Option SecurityProfile) → Option (Option GenericMap) → Option SecurityProfile
profile_of_spec decode none = none
profile_of_spec decode (some none) = some intermediate_profile
profile_of_spec decode (some (some [])) = some intermediate_profile
profile_of_spec decode (some (some (field ∷ spec))) = decoded_profile (decode (field ∷ spec))

-- `unstructured.NestedMap` and `FromUnstructured` are parameters.
module _ {Object : Type 0} where
  unfoldable pub fetch_tls_profile :
      (Object → Option (Option GenericMap))
      → (GenericMap → Option SecurityProfile)
      → Answer Object
      → Option SecurityProfile
  fetch_tls_profile nested decode refused = none
  fetch_tls_profile nested decode not_found = some intermediate_profile
  fetch_tls_profile nested decode (found object) = profile_of_spec decode (nested object)

-- The ConfigMap after `applyConfigMap`, if there is one, and whether no error is returned; the API
-- can refuse the read, and it can refuse the write, which then changes nothing.
unfoldable pub apply_config_map : Bool → Bool → EnvMap → Option EnvMap → Option EnvMap × Bool
apply_config_map true refuses_write env config_map = (config_map, false)
apply_config_map false refuses_write env none =
    if refuses_write then (none, false) else (some env, true)
apply_config_map false refuses_write env (some old) =
    if refuses_write then (some old, false) else (some env, true)

unfoldable pub publish :
    Libraries → Bool → Bool → Option SecurityProfile → Option EnvMap → Option EnvMap × Bool
publish lib refuses_read refuses_write none config_map = (config_map, false)
publish lib refuses_read refuses_write (some p) config_map =
    apply_config_map refuses_read refuses_write
      (config_to_env_map (some (compose_tls_config lib (some p)).0)) config_map

-- `Resolve`; `connected` says whether the clients can be made.
module _ {Object : Type 0} where
  unfoldable pub resolve :
      Libraries
      → (Object → Option (Option GenericMap))
      → (GenericMap → Option SecurityProfile)
      → Bool
      → Answer Object
      → Bool
      → Bool
      → Option EnvMap
      → Option EnvMap × Bool
  resolve lib nested decode false answer refuses_read refuses_write config_map = (config_map, false)
  resolve lib nested decode true answer refuses_read refuses_write config_map =
      publish lib refuses_read refuses_write (fetch_tls_profile nested decode answer) config_map
