-- ===== src/Runtime/CanActor/Sharing.antt =====
-- When a session may join a CAN channel that is already open
-- (crates/robot-hal-runtime/src/can_actor.rs).
use robot_hal.Prelude.{ℕ, ◌≡◌, ◌↔◌, Option, none, some, false, arith}
use robot_hal.Core.Names.{ResourceId}
use robot_hal.Core.Error.{ok, is_ok}
use robot_hal.Can.Config.{CanBitTiming, CanConfigureConfig, CanLinkExpectation, attach, configure}
use robot_hal.Can.Adapter.{CanActiveConfig}
use robot_hal.Protocol.Wire.{Within}
use robot_hal.Runtime.CanActor.{compatible_configuration, expectation_mismatch}

-- The data timing runs at a bitrate.
abbrev RunsAt : Option CanBitTiming → ℕ → Type 0
RunsAt none bitrate = ⊥
RunsAt (some timing) bitrate = timing.bitrate ≡ bitrate

-- Every stated expectation holds of the open channel.
abbrev pub IsMet : CanLinkExpectation → CanActiveConfig → Type 0
IsMet e active =
    Within (λ m. m ≡ active.mode) e.mode
    × Within (λ b. b ≡ active.nominal.bitrate) e.nominal_bitrate
    × Within (RunsAt active.data_timing) e.data_bitrate
    × Within (λ l. l ≡ active.listen_only) e.listen_only
    × Within (λ l. l ≡ active.loopback) e.loopback

-- `compatible_configuration` accepts a request to attach to an open channel exactly when every
-- expectation that the request states holds of the channel, and refuses every request to configure it.
pub compatible_configuration_iff :
    (active : CanActiveConfig) (e : CanLinkExpectation) (c : CanConfigureConfig)
    (resource : ResourceId)
    → ((compatible_configuration active (attach e) resource ≡ ok tt) ↔ IsMet e active)
      × (is_ok (compatible_configuration active (configure c) resource) ≡ false)
unfolding compatible_configuration expectation_mismatch
compatible_configuration_iff active e c resource = (ground arith, ground arith)
