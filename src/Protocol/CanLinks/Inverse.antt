-- ===== src/Protocol/CanLinks/Inverse.antt =====
-- The decoders of crates/robot-hal-protocol/src/can_conversion.rs for link configurations, filters
-- and bus states accept exactly what the encoders make of acceptable values.
use robot_hal.Prelude.{
  ℕ, ◌≡◌, ◌≢◌, ◌↔◌, ◌≤◌, ◌<◌, String, true, false, Option, none, some, arith, subst, is_empty,
  byte_len, is_ascii,
}
use robot_hal.Core.Error.{ok}
use robot_hal.Protocol.CanEnums.{CanModeTag, can_mode_wire}
use robot_hal.Protocol.CanLinks.{
  CanBitTimingMessage, CanConfigureConfigMessage, CanLinkExpectationMessage, CanOpenConfigMessage,
  attach_message, bit_timing_from_proto, bit_timing_to_proto, configuration_from_proto,
  configuration_to_proto, configure_message, expectation_from_proto, expectation_to_proto,
  mode_from_proto, mode_of_tag, mode_to_proto, open_config_from_proto, open_config_to_proto,
  CanActiveConfigMessage, active_config_from_proto, active_config_to_proto,
}
use robot_hal.Protocol.Wire.{
  >>=-eq-ok, Inverts, Within, as_i32, encode_option, enum-Inverts, ok_inj, required, required_iff,
  transpose, transpose-Inverts, inverts_iff,
}
use robot_hal.Can.Config.{
  CanBitTiming, CanConfigureConfig, CanLinkExpectation, CanMode, CanOpenConfig, attach, classic,
  configure, fd,
}
use robot_hal.Can.Adapter.{CanActiveConfig}

mode_translates :
    (field : String) (t : CanModeTag) (m : CanMode)
    → (mode_of_tag field t ≡ ok m) ↔ (t ≡ mode_to_proto m)
mode_translates field t classic = ground arith
mode_translates field t fd = ground arith

mode_inverts :
    (field : String)
    → Inverts (mode_from_proto field) (λ m. as_i32 (mode_to_proto m)) (λ m. Unit {0})
unfolding mode_from_proto
mode_inverts field = enum-Inverts field (mode_of_tag field) mode_to_proto (mode_translates field)

-- What `CanBitTiming::new` accepts, within the integers of the message.
abbrev IsTiming : CanBitTiming → Type 0
IsTiming t =
    (1 ≤ t.bitrate)
    × Within (λ v. (1 ≤ v) × (v ≤ 999)) t.sample_point_permill
    × Within (λ v. (1 ≤ v) × (v < 65536)) t.sjw

bit_timing_from_proto-IsTiming :
    (m : CanBitTimingMessage) (t : CanBitTiming)
    → bit_timing_from_proto m ≡ ok t
    → (m ≡ bit_timing_to_proto t) × IsTiming t
unfolding bit_timing_from_proto
bit_timing_from_proto-IsTiming m t h = ground arith

timing_returns :
    (t : CanBitTiming) → IsTiming t → bit_timing_from_proto (bit_timing_to_proto t) ≡ ok t
unfolding bit_timing_from_proto
timing_returns t h = ground arith

bit_timing_from_proto-Inverts : Inverts bit_timing_from_proto bit_timing_to_proto IsTiming
bit_timing_from_proto-Inverts = record {
  accepts = bit_timing_from_proto-IsTiming;
  returns = timing_returns;
}

timings_inverts :
    Inverts (transpose bit_timing_from_proto) (encode_option bit_timing_to_proto) (Within IsTiming)
timings_inverts = transpose-Inverts bit_timing_from_proto-Inverts

-- What `CanLinkExpectation::new` accepts.
abbrev IsExpectation : CanLinkExpectation → Type 0
IsExpectation e =
    (e.nominal_bitrate ≢ some 0)
    × (e.data_bitrate ≢ some 0)
    × (e.mode ≡ some classic → e.data_bitrate ≡ none)

modes_accept :
    (m : Option ℕ) (o : Option CanMode)
    → transpose (mode_from_proto "can_link_expectation.mode") m ≡ ok o
    → m ≡ encode_option (λ m. as_i32 (mode_to_proto m)) o
modes_accept m o h =
    ((transpose-Inverts (mode_inverts "can_link_expectation.mode")).accepts m o h).0

some_mode : (o : Option CanMode) → Within (λ m. Unit {0}) o
some_mode none = tt
some_mode (some m) = tt

modes_return :
    (o : Option CanMode)
    → transpose
        (mode_from_proto "can_link_expectation.mode")
        (encode_option (λ m. as_i32 (mode_to_proto m)) o)
      ≡ ok o
modes_return o =
    (transpose-Inverts (mode_inverts "can_link_expectation.mode")).returns o (some_mode o)

expectation_from_proto-IsExpectation :
    (m : CanLinkExpectationMessage) (e : CanLinkExpectation)
    → expectation_from_proto m ≡ ok e
    → (m ≡ expectation_to_proto e) × IsExpectation e
unfolding expectation_from_proto
expectation_from_proto-IsExpectation m e h =
    let (mode, p, h1) =
      >>=-eq-ok (transpose (mode_from_proto "can_link_expectation.mode") m.mode) _ h in
    ground (arith, modes_accept m.mode mode p, h1)

expectation_returns :
    (e : CanLinkExpectation)
    → IsExpectation e
    → expectation_from_proto (expectation_to_proto e) ≡ ok e
unfolding expectation_from_proto
expectation_returns e h = ground (arith, modes_return e.mode)

-- What `CanConfigureConfig::new_with_restart` accepts: a data timing exactly in the FD mode.
abbrev TimedFor : CanMode → Option CanBitTiming → Type 0
TimedFor classic t = t ≡ none
TimedFor fd t = t ≢ none

abbrev IsConfiguration : CanConfigureConfig → Type 0
IsConfiguration c =
    IsTiming c.nominal
    × Within IsTiming c.data_timing
    × TimedFor c.mode c.data_timing
    × (c.restart_ms ≢ some 0)

configuration_from_proto-IsConfiguration :
    (m : CanConfigureConfigMessage) (c : CanConfigureConfig)
    → configuration_from_proto m ≡ ok c
    → (m ≡ configuration_to_proto c) × IsConfiguration c
unfolding configuration_from_proto
configuration_from_proto-IsConfiguration m c h =
    let (mode, p, h1) = >>=-eq-ok (mode_from_proto "can_configure_config.mode" m.mode) _ h in
    let (nm, q, h2) = >>=-eq-ok (required m.nominal "can_configure_config.nominal") _ h1 in
    let (nominal, r, h3) = >>=-eq-ok (bit_timing_from_proto nm) _ h2 in
    let (timing, s, h4) = >>=-eq-ok (transpose bit_timing_from_proto m.data_timing) _ h3 in
    ground (
      arith,
      ((mode_inverts "can_configure_config.mode").accepts m.mode mode p).0,
      (required_iff m.nominal "can_configure_config.nominal" nm).0 q,
      bit_timing_from_proto-IsTiming nm nominal r,
      timings_inverts.accepts m.data_timing timing s,
      h4,
    )

configuration_returns :
    (c : CanConfigureConfig)
    → IsConfiguration c
    → configuration_from_proto (configuration_to_proto c) ≡ ok c
unfolding configuration_from_proto
configuration_returns c (n, d, t, r) = ground (
  arith,
  (mode_inverts "can_configure_config.mode").returns c.mode tt,
  timing_returns c.nominal n,
  timings_inverts.returns c.data_timing d,
  t,
  r,
)

-- What the constructors behind `CanOpenConfig` accept.
abbrev pub IsOpenConfig : CanOpenConfig → Type 0
IsOpenConfig (attach e) = IsExpectation e
IsOpenConfig (configure c) = IsConfiguration c

open_accepts :
    (m : Option CanOpenConfigMessage) (c : CanOpenConfig)
    → open_config_from_proto m ≡ ok c
    → (m ≡ open_config_to_proto c) × IsOpenConfig c
unfolding open_config_from_proto
open_accepts none c h = ground arith
open_accepts (some (attach_message m)) c h =
    let (e, p, q) = >>=-eq-ok (expectation_from_proto m) (λ e. ok (attach e)) h in
    subst (λ x. (some (attach_message m) ≡ open_config_to_proto x) × IsOpenConfig x) (ok_inj q)
      (
        ground (arith, expectation_from_proto-IsExpectation m e p),
        (expectation_from_proto-IsExpectation m e p).1,
      )
open_accepts (some (configure_message m)) c h =
    let (e, p, q) = >>=-eq-ok (configuration_from_proto m) (λ e. ok (configure e)) h in
    subst (λ x. (some (configure_message m) ≡ open_config_to_proto x) × IsOpenConfig x) (ok_inj q)
      (
        ground (arith, configuration_from_proto-IsConfiguration m e p),
        (configuration_from_proto-IsConfiguration m e p).1,
      )

open_returns :
    (c : CanOpenConfig) → IsOpenConfig c → open_config_from_proto (open_config_to_proto c) ≡ ok c
unfolding open_config_from_proto
open_returns (attach e) h = ground (arith, expectation_returns e h)
open_returns (configure c) h = ground (arith, configuration_returns c h)

pub open_inverts : Inverts open_config_from_proto open_config_to_proto IsOpenConfig
open_inverts = record { accepts = open_accepts; returns = open_returns }

-- A message decodes to an open configuration exactly when it is the message that encodes it and
-- the configuration is acceptable: an expectation of nonzero bitrates, with no data bitrate in the
-- classic mode, or a configuration whose timings are in range, with a data timing exactly in the FD
-- mode and a restart time, if any, that is not 0.
open_config_from_proto_iff :
    (m : Option CanOpenConfigMessage) (c : CanOpenConfig)
    → (open_config_from_proto m ≡ ok c) ↔ ((m ≡ open_config_to_proto c) × IsOpenConfig c)
open_config_from_proto_iff = inverts_iff open_inverts

-- What `CanActiveConfig::new` accepts.
abbrev IsActive : CanActiveConfig → Type 0
IsActive c =
    IsTiming c.nominal
    × Within IsTiming c.data_timing
    × TimedFor c.mode c.data_timing
    × (is_empty c.clock_domain ≡ false)
    × (byte_len c.clock_domain ≤ 255)
    × (is_ascii c.clock_domain ≡ true)

active_config_from_proto-IsActive :
    (m : CanActiveConfigMessage) (c : CanActiveConfig)
    → active_config_from_proto m ≡ ok c
    → (m ≡ active_config_to_proto c) × IsActive c
unfolding active_config_from_proto
active_config_from_proto-IsActive m c h =
    let (mode, p, h1) = >>=-eq-ok (mode_from_proto "can_active_config.mode" m.mode) _ h in
    let (nm, q, h2) = >>=-eq-ok (required m.nominal "can_active_config.nominal") _ h1 in
    let (nominal, r, h3) = >>=-eq-ok (bit_timing_from_proto nm) _ h2 in
    let (timing, s, h4) = >>=-eq-ok (transpose bit_timing_from_proto m.data_timing) _ h3 in
    ground (
      arith,
      ((mode_inverts "can_active_config.mode").accepts m.mode mode p).0,
      (required_iff m.nominal "can_active_config.nominal" nm).0 q,
      bit_timing_from_proto-IsTiming nm nominal r,
      timings_inverts.accepts m.data_timing timing s,
      h4,
    )

active_returns :
    (c : CanActiveConfig) → IsActive c → active_config_from_proto (active_config_to_proto c) ≡ ok c
unfolding active_config_from_proto
active_returns c (n, d, t, a, b, e) = ground (
  arith,
  (mode_inverts "can_active_config.mode").returns c.mode tt,
  timing_returns c.nominal n,
  timings_inverts.returns c.data_timing d,
  t,
  a,
  b,
  e,
)

active_config_from_proto-Inverts : Inverts active_config_from_proto active_config_to_proto IsActive
active_config_from_proto-Inverts = record {
  accepts = active_config_from_proto-IsActive;
  returns = active_returns;
}
