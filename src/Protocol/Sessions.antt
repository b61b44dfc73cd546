-- ===== src/Protocol/Sessions.antt =====
-- crates/robot-hal-protocol/src/conversion.rs: lease tokens, sessions, resource selectors and
-- descriptors, and errors, with their messages of proto/seeed/hal/v1/hal.proto.
pub mod Inverse
use robot_hal.Prelude.{ℕ, String, not, Option, some, List, [], ◌∷◌, Map, map, eqb, concat, ◌==◌}
use robot_hal.Core.Error.{HalError, HalResult, ok, err, ◌>>=◌, ◌>>◌, fail_if, ok_or}
use robot_hal.Protocol.CoreEnums.{
  IdentityQualityTag, LeaseModeTag, TransportKindTag, identity_quality_medium,
  identity_quality_strong, identity_quality_unspecified, identity_quality_weak, lease_mode_control,
  lease_mode_maintenance, lease_mode_observe, lease_mode_unspecified, transport_kind_camera,
  transport_kind_can, transport_kind_gpio, transport_kind_serial, transport_kind_unspecified,
  transport_kind_usb, identity_quality_wire, lease_mode_wire, transport_kind_wire,
}
use robot_hal.Protocol.Wire.{as_i32, collect_all, invalid, invalid_message, or_error, required_enum}
use robot_hal.Core.Names.{
  CapabilityId, IdentityQuality, LeaseMode, SessionId, TransportKind, camera, can, control, gpio,
  maintenance, medium, observe, serial, strong, usb, weak, lease_mode_eq, transport_kind_eq,
}
use robot_hal.Core.Lease.{LeaseToken}
use robot_hal.Core.Resolution.{CapabilitySet, ResourceDescriptor, ResourceSelector, selector}
use robot_hal.Core.Identifier.{new_endpoint, parse_lease_id, parse_resource_id, parse_session_id}
use robot_hal.Core.Capability.{parse_capability_id}

abbrev pub lease_mode_of_tag : HalError → LeaseModeTag → HalResult LeaseMode
lease_mode_of_tag e lease_mode_observe = ok observe
lease_mode_of_tag e lease_mode_control = ok control
lease_mode_of_tag e lease_mode_maintenance = ok maintenance
lease_mode_of_tag e lease_mode_unspecified = err e

abbrev pub lease_mode_to_proto : LeaseMode → LeaseModeTag
lease_mode_to_proto observe = lease_mode_observe
lease_mode_to_proto control = lease_mode_control
lease_mode_to_proto maintenance = lease_mode_maintenance

pub record LeaseTokenMessage : Type 0 where
  pub lease_id : String
  pub generation : ℕ
  pub mode : ℕ

-- `LeaseToken::try_from`
unfoldable pub lease_from_proto : LeaseTokenMessage → HalResult LeaseToken
unfolding required_enum parse_lease_id
lease_from_proto m = do
  lease_id ←
      or_error (parse_lease_id m.lease_id) (invalid_message "lease token has an invalid lease_id")
  fail_if (eqb m.generation 0) (invalid_message "lease generation must be greater than zero")
  mode ←
      required_enum m.mode "lease mode"
      >>= lease_mode_of_tag (invalid_message "lease mode is required")
  ok (record { lease_id = lease_id; generation = m.generation; mode = mode })

-- `From<&LeaseToken>`
abbrev pub lease_to_proto : LeaseToken → LeaseTokenMessage
lease_to_proto t = record {
  lease_id = t.lease_id.as_str;
  generation = t.generation;
  mode = as_i32 (lease_mode_to_proto t.mode);
}

-- `parse_session_lease`
unfoldable pub parse_session_lease :
    String → Option LeaseTokenMessage → HalResult (SessionId × LeaseToken)
unfolding parse_session_id
parse_session_lease session_id lease = do
  session ←
      or_error (parse_session_id session_id) (invalid_message "request has an invalid session_id")
  message ← ok_or lease (invalid_message "request is missing lease")
  token ← lease_from_proto message
  ok (session, token)

-- The check on the mode that both parsers below make.
abbrev pub require_control : HalError → SessionId × LeaseToken → HalResult (SessionId × LeaseToken)
require_control refused (session, token) = do
  fail_if (not (token.mode == control)) refused
  ok (session, token)

-- `parse_control_session_lease`
unfoldable pub parse_control_session_lease :
    String → Option LeaseTokenMessage → String → HalResult (SessionId × LeaseToken)
parse_control_session_lease session_id lease hardware_class =
    parse_session_lease session_id lease
    >>= require_control
        (invalid_message (concat hardware_class " session lease mode must be Control"))

-- `parse_serial_session_lease`
unfoldable parse_serial_session_lease :
    String → Option LeaseTokenMessage → HalResult (SessionId × LeaseToken)
parse_serial_session_lease session_id lease =
    parse_session_lease session_id lease
    >>= require_control (invalid_message "Serial session lease mode must be Control")

-- `OpenSerialResponse`, `OpenUsbResponse` and `OpenGpioResponse` have these two fields.
pub record OpenResponse : Type 0 where
  pub session_id : String
  pub lease : Option LeaseTokenMessage

-- `open_usb_response_to_proto` and `open_gpio_response_to_proto`
abbrev pub open_response_to_proto : SessionId → LeaseToken → OpenResponse
open_response_to_proto session lease = record {
  session_id = session.as_str;
  lease = some (lease_to_proto lease);
}

-- `open_usb_response_from_proto` and `open_gpio_response_from_proto`
unfoldable pub open_response_from_proto : String → OpenResponse → HalResult (SessionId × LeaseToken)
open_response_from_proto hardware_class m =
    parse_control_session_lease m.session_id m.lease hardware_class

pub record ResourceSelectorMessage : Type 0 where
  pub resource_id : String
  pub minimum_identity_quality : ℕ
  pub transport : ℕ

abbrev pub quality_of_tag : IdentityQualityTag → HalResult IdentityQuality
quality_of_tag identity_quality_weak = ok weak
quality_of_tag identity_quality_medium = ok medium
quality_of_tag identity_quality_strong = ok strong
quality_of_tag identity_quality_unspecified =
    err (invalid_message "minimum_identity_quality is required")

abbrev pub transport_of_tag : TransportKindTag → HalResult TransportKind
transport_of_tag transport_kind_serial = ok serial
transport_of_tag transport_kind_can = ok can
transport_of_tag transport_kind_usb = ok usb
transport_of_tag transport_kind_gpio = ok gpio
transport_of_tag transport_kind_camera = ok camera
transport_of_tag transport_kind_unspecified = err (invalid_message "transport is required")

-- `quality_to_proto` and `transport_to_proto`
abbrev pub quality_to_proto : IdentityQuality → IdentityQualityTag
quality_to_proto weak = identity_quality_weak
quality_to_proto medium = identity_quality_medium
quality_to_proto strong = identity_quality_strong

abbrev pub transport_to_proto : TransportKind → TransportKindTag
transport_to_proto serial = transport_kind_serial
transport_to_proto can = transport_kind_can
transport_to_proto usb = transport_kind_usb
transport_to_proto gpio = transport_kind_gpio
transport_to_proto camera = transport_kind_camera

-- `ResourceSelector::try_from`
unfoldable pub selector_from_proto : ResourceSelectorMessage → HalResult ResourceSelector
unfolding required_enum parse_resource_id
selector_from_proto m = do
  id ←
      or_error (parse_resource_id m.resource_id)
        (invalid_message "resource selector has an invalid resource_id")
  quality ← required_enum m.minimum_identity_quality "minimum_identity_quality" >>= quality_of_tag
  transport ← required_enum m.transport "transport" >>= transport_of_tag
  ok (record { id = id; minimum_identity_quality = quality; transport = transport })

-- `TryFrom<&ResourceSelector>`, which never fails
abbrev pub selector_to_proto : ResourceSelector → ResourceSelectorMessage
selector_to_proto s = record {
  resource_id = s.id.as_str;
  minimum_identity_quality = as_i32 (quality_to_proto s.minimum_identity_quality);
  transport = as_i32 (transport_to_proto s.transport);
}

-- `selector_for_transport`
unfoldable selector_for_transport :
    ResourceSelectorMessage → TransportKind → String → HalResult ResourceSelector
selector_for_transport m expected label = do
  s ← selector_from_proto m
  fail_if (not (s.transport == expected))
      (invalid_message (concat label " resource selector transport does not match"))
  ok s

pub record ResourceDescriptorMessage : Type 0 where
  pub resource_id : String
  pub endpoint : String
  pub identity_quality : ℕ
  pub transport : ℕ
  pub properties : Map String String
  pub capabilities : List String

-- `crate::SERIAL_CAPABILITY`; its `expect` is discharged in Inverse.
abbrev serial_capability : CapabilityId
serial_capability = record { as_str = "serial.bytes/v1" }

abbrev capability_from_proto : String → HalResult CapabilityId
capability_from_proto capability =
    or_error (parse_capability_id capability)
      (invalid_message "resource descriptor has an invalid capability")

-- Without capabilities a descriptor is that of a peer which knows serial ports only.
unfoldable capabilities_from_proto : TransportKind → List String → HalResult CapabilitySet
capabilities_from_proto transport [] = do
  fail_if (not (transport == serial))
      (invalid_message "CAN resource descriptor requires explicit capabilities")
  ok (serial_capability ∷ [])
capabilities_from_proto transport (c ∷ cs) = collect_all capability_from_proto (c ∷ cs)

-- `ResourceDescriptor::try_from`
unfoldable descriptor_from_proto : ResourceDescriptorMessage → HalResult ResourceDescriptor
unfolding new_endpoint
descriptor_from_proto m = do
  s ← selector_from_proto (record {
    resource_id = m.resource_id;
    minimum_identity_quality = m.identity_quality;
    transport = m.transport;
  })
  endpoint ←
      or_error (new_endpoint m.endpoint)
        (invalid_message "resource descriptor has an invalid endpoint")
  capabilities ← capabilities_from_proto s.transport m.capabilities
  ok (record {
    id = s.id;
    endpoint = endpoint;
    minimum_identity_quality = s.minimum_identity_quality;
    transport = s.transport;
    properties = m.properties;
    capabilities = capabilities;
  })

-- `TryFrom<&ResourceDescriptor>`, which never fails
abbrev descriptor_to_proto : ResourceDescriptor → ResourceDescriptorMessage
descriptor_to_proto d = record {
  resource_id = d.id.as_str;
  endpoint = d.endpoint.as_str;
  identity_quality = as_i32 (quality_to_proto d.minimum_identity_quality);
  transport = as_i32 (transport_to_proto d.transport);
  properties = d.properties;
  capabilities = map (λ (c : CapabilityId). c.as_str) d.capabilities;
}
