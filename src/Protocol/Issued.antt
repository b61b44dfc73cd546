-- ===== src/Protocol/Issued.antt =====
-- From the lease table to the client: a token of crates/robot-hal-runtime/src/lease_table.rs survives
-- the answer to an open of crates/robot-hal-protocol/src/conversion.rs.
use robot_hal.Prelude.{◌≤◌, ◌≡◌, refl, String, arith, sym, subst}
use robot_hal.Core.Names.{ResourceId, SessionId, OwnerId, LeaseId, control, resource_id_eq}
use robot_hal.Core.Error.{ok}
use robot_hal.Core.Lease.{LeaseToken}
use robot_hal.Runtime.LeaseTable.{LeaseTable, reserve_control}
use robot_hal.Core.Identifier.{IsIdentifier}
use robot_hal.Protocol.Sessions.{open_response_from_proto, open_response_to_proto}
use robot_hal.Protocol.Sessions.Inverse.{open_response_from_proto_iff}

issued :
    (t : LeaseTable) (r : ResourceId) (session : SessionId) (owner : OwnerId) (fresh : LeaseId)
    (token : LeaseToken)
    → (reserve_control t r session owner fresh).1 ≡ ok token
    → (token.lease_id ≡ fresh) × (1 ≤ token.generation) × (token.mode ≡ control)
unfolding reserve_control
issued t r session owner fresh token h = ground arith

-- The token that a reservation of the lease table hands out arrives at the client: the answer to an
-- open that the broker makes of the session and this token is read as the same session and token,
-- when the session and the new lease have identifiers of 1 to 255 bytes of ASCII.
pub issued_token_arrives :
    (t : LeaseTable) (r : ResourceId) (session : SessionId) (owner : OwnerId) (fresh : LeaseId)
    (token : LeaseToken) (hardware_class : String)
    → (reserve_control t r session owner fresh).1 ≡ ok token
    → IsIdentifier session.as_str
    → IsIdentifier fresh.as_str
    → open_response_from_proto hardware_class (open_response_to_proto session token)
      ≡ ok (session, token)
issued_token_arrives t r session owner fresh token hardware_class h named drawn =
    let (same, numbered, held) = issued t r session owner fresh token h in
    (open_response_from_proto_iff hardware_class (open_response_to_proto session token) session
        token).1
      (
        refl,
        named,
        (subst (λ (x : LeaseId). IsIdentifier x.as_str) (sym same) drawn, numbered),
        held,
      )
