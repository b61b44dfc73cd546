-- ===== src/Core/Tests.antt =====
-- Runs of crates/robot-hal-core on concrete names, contexts and descriptors.
use robot_hal.Prelude.{◌≡◌, ◌↔◌, String, true, List, [], ◌∷◌, is_ascii, all_chars, refl}
use robot_hal.Core.Names.{CapabilityId, eq_resource_id, eq_capability_id, strong, medium, serial}
use robot_hal.Core.Error.{ok, err, is_ok}
use robot_hal.Core.Identifier.{validate_identifier}
use robot_hal.Core.Capability.{
  parse_capability_id, split_once, split_on, has_char, is_contract, is_version_number, parse_u64,
  digits_value,
}
use robot_hal.Core.Context.{new_context, IsBounded, prepend, new_context_iff}
use robot_hal.Core.Resolution.{
  ResourceDescriptor, ResourceSelector, resolve_resource, is_match, has_capability, missing_error,
  ambiguous_error,
}
use robot_hal.Core.Resolution.Outcomes.{OnlySuits, NoneSuits, TwoSuit, resolve_resource_cases}

abbrev details : List (String × String)
details = ("port", "ttyUSB0") ∷ ("baudRate", "115200") ∷ []

new_context_iff_example :
    ((is_ok (new_context details) ≡ true) ↔ IsBounded (prepend details []))
    × (is_ok (new_context details) ≡ true
        → new_context details ≡ ok (record { entries = prepend details [] }))
new_context_iff_example = new_context_iff details

abbrev serial_control : CapabilityId
serial_control = record { as_str = "serial.control/v1" }

abbrev described : String → ResourceDescriptor
described name = record {
  id = record { as_str = name };
  endpoint = record { as_str = "/dev/ttyUSB0" };
  minimum_identity_quality = strong;
  transport = serial;
  properties = [];
  capabilities = serial_control ∷ [];
}

abbrev arm_selector : ResourceSelector
arm_selector = record {
  id = record { as_str = "serial:arm" };
  minimum_identity_quality = medium;
  transport = serial;
}

abbrev found : List ResourceDescriptor
found = described "serial:wrist" ∷ described "serial:arm" ∷ []

resolve_resource_cases_example :
    ((resolve_resource found arm_selector serial_control "serial.open"
        ≡ ok (described "serial:arm"))
      ↔ OnlySuits arm_selector serial_control (described "serial:arm") found)
    × ((resolve_resource found arm_selector serial_control "serial.open"
          ≡ err (missing_error arm_selector "serial.open"))
        ↔ NoneSuits arm_selector serial_control found)
    × ((resolve_resource found arm_selector serial_control "serial.open"
          ≡ err (ambiguous_error arm_selector "serial.open"))
        ↔ TwoSuit arm_selector serial_control found)
resolve_resource_cases_example =
    resolve_resource_cases arm_selector serial_control found (described "serial:arm") "serial.open"

arm_resolved :
    resolve_resource found arm_selector serial_control "serial.open" ≡ ok (described "serial:arm")
unfolding resolve_resource is_match has_capability eq_resource_id eq_capability_id
arm_resolved = refl

serial_control_accepted : parse_capability_id "serial.control/v1" ≡ ok serial_control
unfolding parse_capability_id validate_identifier is_ascii all_chars split_once split_on has_char
    is_contract is_version_number parse_u64 digits_value
serial_control_accepted = refl
