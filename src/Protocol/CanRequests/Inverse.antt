-- ===== src/Protocol/CanRequests/Inverse.antt =====
-- What crates/robot-hal-protocol/src/can_conversion.rs accepts as requests and answers of the CAN
-- service.
use robot_hal.Prelude.{
  ◌≡◌, ◌↔◌, ◌≤◌, ap, String, not, Option, List, map, length, length-map, arith, ◌==◌, ==_iff, subst,
}
use robot_hal.Core.Error.{ok, fail_if}
use robot_hal.Protocol.CoreEnums.{lease_mode_wire}
use robot_hal.Core.Names.{transport_kind_eq, LeaseMode, can, TransportKind}
use robot_hal.Protocol.CanRequests.{
  OpenCanRequest, is_batch_size, lease_mode_from_proto, open_can_request,
  open_can_request_from_proto, send_can_frames_from_proto,
}
use robot_hal.Protocol.Wire.{
  >>=-eq-ok, Every, Inverts, as_i32, collect_all-Inverts, invalid, required, ok_inj, required_iff,
}
use robot_hal.Protocol.CanFrames.{CanFrameMessage, frame_to_proto}
use robot_hal.Protocol.CanFrames.Inverse.{frame_inverts}
use robot_hal.Protocol.CanLinks.{
  filter_set_from_proto, open_config_from_proto, CanFilterMessage, CanOpenConfigMessage,
}
use robot_hal.Protocol.CanLinks.Inverse.{IsOpenConfig, open_inverts}
use robot_hal.Protocol.CanLinks.Filters.{IsFilterSet, set_inverts}
use robot_hal.Protocol.Sessions.{lease_mode_to_proto, selector_from_proto, ResourceSelectorMessage}
use robot_hal.Protocol.Sessions.Inverse.{IsNamed, lease_mode_inverts, selector_inverts}
use robot_hal.Can.Frame.{CanFrame, IsLegal}
use robot_hal.Can.Filter.{CanFilterSet}
use robot_hal.Can.Config.{CanOpenConfig}
use robot_hal.Core.Resolution.{ResourceSelector}

mode_inverts :
    (field : String)
    → Inverts
        (λ n. lease_mode_from_proto n field)
        (λ m. as_i32 (lease_mode_to_proto m))
        (λ m. Unit {0})
unfolding lease_mode_from_proto
mode_inverts field = lease_mode_inverts field (invalid field "is required")

checked_eq :
    (t : TransportKind) {u : Unit {0}}
    → fail_if (not (t == can)) (invalid "open_can.selector.transport" "must be CAN") ≡ ok u
    → t ≡ can
checked_eq t h = ground (arith, ==_iff t can)

-- The parts of an accepted request, put together again.
parts_accepted :
    (m : OpenCanRequest) (sm : ResourceSelectorMessage) (cm : Option CanOpenConfigMessage)
    (fm : List CanFilterMessage) (s : ResourceSelector) (mode : LeaseMode) (config : CanOpenConfig)
    (filters : CanFilterSet)
    → required m.selector "open_can.selector" ≡ ok sm
    → selector_from_proto sm ≡ ok s
    → lease_mode_from_proto m.mode "open_can.mode" ≡ ok mode
    → required m.config "open_can.config" ≡ ok cm
    → open_config_from_proto cm ≡ ok config
    → required m.filters "open_can.filters" ≡ ok fm
    → filter_set_from_proto fm ≡ ok filters
    → (m ≡ open_can_request s mode config filters)
      × IsNamed s
      × IsOpenConfig config
      × IsFilterSet filters
parts_accepted m sm cm fm s mode config filters p1 p2 p3 p4 p5 p6 p7 =
    let (a, named) = selector_inverts.accepts sm s p2 in
    let (b, u) = (mode_inverts "open_can.mode").accepts m.mode mode p3 in
    let (c, opens) = open_inverts.accepts cm config p5 in
    let (d, filtered) = set_inverts.accepts fm filters p7 in
    (
      ground (
        arith,
        (required_iff m.selector "open_can.selector" sm).0 p1,
        (required_iff m.config "open_can.config" cm).0 p4,
        (required_iff m.filters "open_can.filters" fm).0 p6,
        a,
        b,
        c,
        d,
      ),
      named,
      opens,
      filtered,
    )

abbrev Opened :
    OpenCanRequest → ResourceSelector × LeaseMode × CanOpenConfig × CanFilterSet → Type 0
Opened m (s, mode, config, filters) =
    (m ≡ open_can_request s mode config filters)
    × IsNamed s
    × (s.transport ≡ can)
    × IsOpenConfig config
    × IsFilterSet filters

open_accepts :
    (m : OpenCanRequest) (r : ResourceSelector × LeaseMode × CanOpenConfig × CanFilterSet)
    → open_can_request_from_proto m ≡ ok r
    → Opened m r
unfolding open_can_request_from_proto
open_accepts m r h =
    let (sm, p1, h1) = >>=-eq-ok (required m.selector "open_can.selector") _ h in
    let (s, p2, h2) = >>=-eq-ok (selector_from_proto sm) _ h1 in
    let (u, p3, h3) =
      >>=-eq-ok
        (fail_if (not (s.transport == can)) (invalid "open_can.selector.transport" "must be CAN")) _
        h2 in
    let (mode, p4, h4) = >>=-eq-ok (lease_mode_from_proto m.mode "open_can.mode") _ h3 in
    let (cm, p5, h5) = >>=-eq-ok (required m.config "open_can.config") _ h4 in
    let (config, p6, h6) = >>=-eq-ok (open_config_from_proto cm) _ h5 in
    let (fm, p7, h7) = >>=-eq-ok (required m.filters "open_can.filters") _ h6 in
    let (filters, p8, h8) = >>=-eq-ok (filter_set_from_proto fm) _ h7 in
    let (e, named, opens, filtered) =
      parts_accepted m sm cm fm s mode config filters p1 p2 p4 p5 p6 p7 p8 in
    subst (Opened m) (ok_inj h8) (e, named, checked_eq (s.transport) p3, opens, filtered)

open_returns :
    (s : ResourceSelector) (mode : LeaseMode) (config : CanOpenConfig) (filters : CanFilterSet)
    → IsNamed s
    → s.transport ≡ can
    → IsOpenConfig config
    → IsFilterSet filters
    → open_can_request_from_proto (open_can_request s mode config filters)
      ≡ ok (s, mode, config, filters)
unfolding open_can_request_from_proto
open_returns s mode config filters named is_can opens filtered = ground (
  arith,
  selector_inverts.returns s named,
  ==_iff s.transport can,
  (mode_inverts "open_can.mode").returns mode tt,
  open_inverts.returns config opens,
  set_inverts.returns filters filtered,
)

-- A request to open a CAN bus decodes exactly when it is the request that a client builds from an
-- identified selector of a CAN resource, a lease mode, an acceptable configuration and an
-- acceptable filter set, and then to those four.
pub open_can_request_from_proto_iff :
    (m : OpenCanRequest) (s : ResourceSelector) (mode : LeaseMode) (config : CanOpenConfig)
    (filters : CanFilterSet)
    → (open_can_request_from_proto m ≡ ok (s, mode, config, filters)) ↔ (
        (m ≡ open_can_request s mode config filters)
        × IsNamed s
        × (s.transport ≡ can)
        × IsOpenConfig config
        × IsFilterSet filters)
open_can_request_from_proto_iff m s mode config filters = (
  open_accepts m (s, mode, config, filters),
  λ (e, named, is_can, opens, filtered).
      rw e (open_returns s mode config filters named is_can opens filtered),
)

-- A batch of frame messages decodes exactly when it has 1 to 64 messages that encode legal frames,
-- and then to those frames in their order.
send_can_frames_from_proto_iff :
    (m : List CanFrameMessage) (frames : List CanFrame)
    → (send_can_frames_from_proto m ≡ ok frames) ↔ (
        (m ≡ map frame_to_proto frames)
        × Every IsLegal frames
        × (1 ≤ length frames)
        × (length frames ≤ 64))
unfolding send_can_frames_from_proto
send_can_frames_from_proto_iff m frames =
    let all = collect_all-Inverts frame_inverts in
    (
      λ h.
          let (u, g, h1) =
            >>=-eq-ok
              (fail_if (not (is_batch_size (length m)))
                (invalid "can_send.frames" "must contain 1..=64 frames"))
              _ h in
          let (e, legal) = all.accepts m frames h1 in
          let count = length-map frame_to_proto frames in
          (e, legal, ground (arith, ap length e, count, g), ground (arith, ap length e, count, g)),
      λ (e, legal, few, many).
          rw e (ground (arith, length-map frame_to_proto frames, all.returns frames legal)),
    )
