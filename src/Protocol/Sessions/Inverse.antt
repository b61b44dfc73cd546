-- ===== src/Protocol/Sessions/Inverse.antt =====
-- The decoders of crates/robot-hal-protocol/src/conversion.rs for leases, sessions and selectors
-- accept exactly what the encoders make of acceptable values.
use robot_hal.Prelude.{◌≡◌, ◌↔◌, ◌≤◌, refl, String, Option, none, some, arith, ==_iff, concat}
use robot_hal.Core.Error.{HalResult, ok, err, ◌>>=◌, HalError}
use robot_hal.Protocol.CoreEnums.{
  IdentityQualityTag, LeaseModeTag, TransportKindTag, lease_mode_of, identity_quality_wire,
  lease_mode_wire, transport_kind_wire,
}
use robot_hal.Protocol.Sessions.{
  LeaseTokenMessage, OpenResponse, ResourceSelectorMessage, lease_from_proto, lease_mode_of_tag,
  lease_mode_to_proto, lease_to_proto, open_response_from_proto, open_response_to_proto,
  parse_control_session_lease, parse_session_lease, quality_of_tag, quality_to_proto,
  selector_from_proto, selector_to_proto, transport_of_tag, transport_to_proto, require_control,
}
use robot_hal.Protocol.Wire.{
  >>=-eq-ok, Inverts, as_i32, enum-Inverts, invalid_message, ok_inj, or_error, required_enum,
}
use robot_hal.Core.Names.{
  IdentityQuality, LeaseMode, SessionId, TransportKind, camera, can, control, gpio, maintenance,
  medium, observe, serial, strong, usb, weak, lease_mode_eq,
}
use robot_hal.Core.Lease.{LeaseToken}
use robot_hal.Core.Resolution.{ResourceSelector}
use robot_hal.Core.Identifier.{
  IsIdentifier, parse_resource_id, validate_identifier_iff, parse_session_id,
}

lease_mode_translates :
    (message : HalError) (t : LeaseModeTag) (m : LeaseMode)
    → (lease_mode_of_tag message t ≡ ok m) ↔ (t ≡ lease_mode_to_proto m)
lease_mode_translates message t observe = ground arith
lease_mode_translates message t control = ground arith
lease_mode_translates message t maintenance = ground arith

pub lease_mode_inverts :
    (field : String) (message : HalError)
    → Inverts
        (λ n. required_enum n field >>= lease_mode_of_tag message)
        (λ m. as_i32 (lease_mode_to_proto m))
        (λ m. Unit {0})
lease_mode_inverts field message =
    enum-Inverts field (lease_mode_of_tag message) lease_mode_to_proto
      (lease_mode_translates message)

-- A token that a peer may show: an identifier, and a generation that has been issued.
abbrev pub IsShown : LeaseToken → Type 0
IsShown t = IsIdentifier t.lease_id.as_str × (1 ≤ t.generation)

lease_accepts :
    (m : LeaseTokenMessage) (t : LeaseToken)
    → lease_from_proto m ≡ ok t
    → (m ≡ lease_to_proto t) × IsShown t
unfolding lease_from_proto lease_mode_of
lease_accepts m t h = ground (arith, validate_identifier_iff "lease.id" m.lease_id)

lease_returns : (t : LeaseToken) → IsShown t → lease_from_proto (lease_to_proto t) ≡ ok t
unfolding lease_from_proto lease_mode_of
lease_returns t (id, issued) =
    ground (arith, (validate_identifier_iff "lease.id" t.lease_id.as_str).1 id, issued)

lease_inverts : Inverts lease_from_proto lease_to_proto IsShown
lease_inverts = record { accepts = lease_accepts; returns = lease_returns }

session_accepts :
    (id : String) (lease : Option LeaseTokenMessage) (s : SessionId) (t : LeaseToken)
    → parse_session_lease id lease ≡ ok (s, t)
    → (id ≡ s.as_str) × (lease ≡ some (lease_to_proto t)) × IsIdentifier s.as_str × IsShown t
unfolding parse_session_lease
session_accepts id none s t h = ground arith
session_accepts id (some m) s t h =
    let (s', p, h1) =
      >>=-eq-ok
        (or_error (parse_session_id id) (invalid_message "request has an invalid session_id")) _
        h in
    let (t', q, h2) = >>=-eq-ok (lease_from_proto m) _ h1 in
    ground (arith, p, h2, validate_identifier_iff "session.id" id, lease_accepts m t' q)

session_returns :
    (s : SessionId) (t : LeaseToken)
    → IsIdentifier s.as_str
    → IsShown t
    → parse_session_lease s.as_str (some (lease_to_proto t)) ≡ ok (s, t)
unfolding parse_session_lease
session_returns s t id shown =
    ground (arith, (validate_identifier_iff "session.id" s.as_str).1 id, lease_returns t shown)

control_session :
    (r : HalResult (SessionId × LeaseToken)) (e : HalError) (s : SessionId) (t : LeaseToken)
    → ((r >>= require_control e) ≡ ok (s, t)) ↔ ((r ≡ ok (s, t)) × (t.mode ≡ control))
control_session (ok (s', t')) e s t = ground (arith, ==_iff t'.mode control)
control_session (err e') e s t = ground arith

-- An answer to an open decodes to a session and a token exactly when it encodes them, both are
-- identified, the token has a generation of at least 1 and is a control lease.
pub open_response_from_proto_iff :
    (hardware_class : String) (m : OpenResponse) (s : SessionId) (t : LeaseToken)
    → (open_response_from_proto hardware_class m ≡ ok (s, t))
      ↔ ((m ≡ open_response_to_proto s t) × IsIdentifier s.as_str × IsShown t × (t.mode ≡ control))
unfolding open_response_from_proto parse_control_session_lease
open_response_from_proto_iff hardware_class m s t =
    let refused = invalid_message (concat hardware_class " session lease mode must be Control") in
    let checked = control_session (parse_session_lease m.session_id m.lease) refused s t in
    let checked' =
      control_session (parse_session_lease s.as_str (some (lease_to_proto t))) refused s t in
    (
      λ h.
          let (parsed, held) = checked.0 h in
          ground (arith, session_accepts m.session_id m.lease s t parsed, held),
      λ (e, id, shown, held). rw e (checked'.1 (session_returns s t id shown, held)),
    )

quality_translates :
    (t : IdentityQualityTag) (q : IdentityQuality)
    → (quality_of_tag t ≡ ok q) ↔ (t ≡ quality_to_proto q)
quality_translates t weak = ground arith
quality_translates t medium = ground arith
quality_translates t strong = ground arith

transport_translates :
    (t : TransportKindTag) (k : TransportKind)
    → (transport_of_tag t ≡ ok k) ↔ (t ≡ transport_to_proto k)
transport_translates t serial = ground arith
transport_translates t can = ground arith
transport_translates t usb = ground arith
transport_translates t gpio = ground arith
transport_translates t camera = ground arith

quality_inverts :
    Inverts
      (λ n. required_enum n "minimum_identity_quality" >>= quality_of_tag)
      (λ q. as_i32 (quality_to_proto q))
      (λ q. Unit {0})
quality_inverts =
    enum-Inverts "minimum_identity_quality" quality_of_tag quality_to_proto quality_translates

transport_inverts :
    Inverts
      (λ n. required_enum n "transport" >>= transport_of_tag)
      (λ k. as_i32 (transport_to_proto k))
      (λ k. Unit {0})
transport_inverts =
    enum-Inverts "transport" transport_of_tag transport_to_proto transport_translates

abbrev pub IsNamed : ResourceSelector → Type 0
IsNamed s = IsIdentifier s.id.as_str

selector_accepts :
    (m : ResourceSelectorMessage) (s : ResourceSelector)
    → selector_from_proto m ≡ ok s
    → (m ≡ selector_to_proto s) × IsNamed s
unfolding selector_from_proto
selector_accepts m s h =
    let (id, p, h1) =
      >>=-eq-ok
        (or_error (parse_resource_id m.resource_id)
          (invalid_message "resource selector has an invalid resource_id"))
        _ h in
    let (q, r, h2) =
      >>=-eq-ok
        (required_enum m.minimum_identity_quality "minimum_identity_quality" >>= quality_of_tag) _
        h1 in
    let (t, u, h3) = >>=-eq-ok (required_enum m.transport "transport" >>= transport_of_tag) _ h2 in
    ground (
      arith,
      validate_identifier_iff "resource.id" m.resource_id,
      p,
      quality_inverts.accepts m.minimum_identity_quality q r,
      transport_inverts.accepts m.transport t u,
      ok_inj h3,
    )

selector_returns :
    (s : ResourceSelector) → IsNamed s → selector_from_proto (selector_to_proto s) ≡ ok s
unfolding selector_from_proto
selector_returns s id = ground (
  arith,
  (validate_identifier_iff "resource.id" s.id.as_str).1 id,
  quality_inverts.returns s.minimum_identity_quality tt,
  transport_inverts.returns s.transport tt,
)

pub selector_inverts : Inverts selector_from_proto selector_to_proto IsNamed
selector_inverts = record { accepts = selector_accepts; returns = selector_returns }

pub control_session_returns :
    (hardware_class : String) (s : SessionId) (t : LeaseToken)
    → IsIdentifier s.as_str
    → IsShown t
    → t.mode ≡ control
    → parse_control_session_lease s.as_str (some (lease_to_proto t)) hardware_class ≡ ok (s, t)
unfolding open_response_from_proto
control_session_returns hardware_class s t id shown held =
    (open_response_from_proto_iff hardware_class (open_response_to_proto s t) s t).1
      (refl, id, shown, held)
