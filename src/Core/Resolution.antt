-- ===== src/Core/Resolution.antt =====
-- crates/robot-hal-core/src/identity.rs: descriptors, selectors and `resolve_resource`.
pub mod Outcomes
use robot_hal.Prelude.{
  ℕ, String, Bool, false, ◌&&◌, List, [], ◌∷◌, Map, any, keep, leb, string_eq, ◌==◌,
}
use robot_hal.Core.Names.{
  ResourceId, Endpoint, CapabilityId, IdentityQuality, weak, medium, strong, TransportKind,
  not_found, conflict, resource_id_eq, capability_id_eq, transport_kind_eq,
}
use robot_hal.Core.Error.{HalError, HalResult, ok, err, with_resource_id, build_error}

-- `IdentityQuality::rank` and `satisfies`
abbrev quality_rank : IdentityQuality → ℕ
quality_rank weak = 0
quality_rank medium = 1
quality_rank strong = 2

abbrev pub satisfies : IdentityQuality → IdentityQuality → Bool
satisfies quality minimum = leb (quality_rank minimum) (quality_rank quality)

abbrev pub CapabilitySet : Type 0
CapabilitySet = List CapabilityId

-- `CapabilitySet::contains`
unfoldable pub has_capability : CapabilitySet → CapabilityId → Bool
has_capability set capability = any (λ c. c == capability) set

pub record ResourceDescriptor : Type 0 where
  pub id : ResourceId
  pub endpoint : Endpoint
  pub minimum_identity_quality : IdentityQuality
  pub transport : TransportKind
  pub properties : Map String String
  pub capabilities : CapabilitySet

pub record ResourceSelector : Type 0 where
  pub id : ResourceId
  pub minimum_identity_quality : IdentityQuality
  pub transport : TransportKind

-- `ResourceDescriptor::selector`
abbrev pub selector : ResourceDescriptor → ResourceSelector
selector d = record {
  id = d.id;
  minimum_identity_quality = d.minimum_identity_quality;
  transport = d.transport;
}

-- The closure of the filter.
unfoldable pub is_match : ResourceSelector → CapabilityId → ResourceDescriptor → Bool
is_match s capability d =
    d.id == s.id
    && (d.transport == s.transport
        && (satisfies d.minimum_identity_quality s.minimum_identity_quality
            && has_capability d.capabilities capability))

abbrev pub missing_error : ResourceSelector → String → HalError
missing_error s operation =
    with_resource_id
      (build_error "runtime.resource.not_found" not_found operation false
        "resource selector did not match an enumerated descriptor")
      s.id

abbrev pub ambiguous_error : ResourceSelector → String → HalError
ambiguous_error s operation =
    with_resource_id
      (build_error "runtime.resource.ambiguous" conflict operation false
        "resource selector matched more than one enumerated descriptor")
      s.id

-- What `resolve_resource` makes of the matches; it looks at two of them at most.
abbrev pub settle :
    ResourceSelector → String → List ResourceDescriptor → HalResult ResourceDescriptor
settle s operation [] = err (missing_error s operation)
settle s operation (selected ∷ []) = ok selected
settle s operation (selected ∷ other ∷ rest) = err (ambiguous_error s operation)

-- The `?` on `HalError::new` passes, since the names are identifiers and `operation` is one.
unfoldable pub resolve_resource :
    List ResourceDescriptor
    → ResourceSelector
    → CapabilityId
    → String
    → HalResult ResourceDescriptor
resolve_resource descriptors s capability operation =
    settle s operation (keep (is_match s capability) descriptors)
