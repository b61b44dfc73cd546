-- ===== src/Can/Config.antt =====
-- crates/robot-hal-can/src/config.rs: bit timings, link expectations and link configurations.
use robot_hal.Prelude.{
  ℕ, ◌≡◌, ◌≢◌, ◌↔◌, String, Bool, true, false, not, ◌&&◌, ◌||◌, Option, none, some, arith, leb, eqb,
  is_some, is_some_and,
}
use robot_hal.Core.Names.{invalid_argument}
use robot_hal.Core.Error.{HalError, HalResult, ok, err, ◌>>◌, fail_if, build_error, is_ok}

pub data CanMode : Type 0 where
  classic fd : CanMode

abbrev pub is_classic : CanMode → Bool
is_classic classic = true
is_classic fd = false

abbrev invalid_config : String → HalError
invalid_config message =
    build_error "can.configuration.invalid" invalid_argument "can.configuration" false message

pub record CanBitTiming : Type 0 where
  pub bitrate : ℕ
  pub sample_point_permill : Option ℕ
  pub sjw : Option ℕ

-- `CanBitTiming::new`
unfoldable pub new_bit_timing : ℕ → Option ℕ → Option ℕ → HalResult CanBitTiming
new_bit_timing bitrate sample_point sjw = do
  fail_if (eqb bitrate 0) (invalid_config "CAN bitrate must be nonzero")
  fail_if (is_some_and sample_point (λ v. not (leb 1 v && leb v 999)))
      (invalid_config "CAN sample point must be 1..=999 permill")
  fail_if (is_some_and sjw (λ v. eqb v 0)) (invalid_config "CAN SJW must be nonzero")
  ok (record { bitrate = bitrate; sample_point_permill = sample_point; sjw = sjw })

pub record CanLinkExpectation : Type 0 where
  pub mode : Option CanMode
  pub nominal_bitrate : Option ℕ
  pub data_bitrate : Option ℕ
  pub listen_only : Option Bool
  pub loopback : Option Bool

-- `CanLinkExpectation::new`
unfoldable pub new_link_expectation :
    Option CanMode → Option ℕ → Option ℕ → Option Bool → Option Bool → HalResult CanLinkExpectation
new_link_expectation mode nominal data_rate listen_only loopback = do
  fail_if (is_some_and nominal (λ v. eqb v 0) || is_some_and data_rate (λ v. eqb v 0))
      (invalid_config "CAN expected bitrates must be nonzero")
  fail_if (is_some_and mode is_classic && is_some data_rate)
      (invalid_config "Classical CAN expectation cannot include data bitrate")
  ok (record {
    mode = mode;
    nominal_bitrate = nominal;
    data_bitrate = data_rate;
    listen_only = listen_only;
    loopback = loopback;
  })

pub record CanConfigureConfig : Type 0 where
  pub mode : CanMode
  pub nominal : CanBitTiming
  pub data_timing : Option CanBitTiming
  pub listen_only : Bool
  pub loopback : Bool
  pub restart_ms : Option ℕ

abbrev check_timing : CanMode → Bool → HalResult (Unit {0})
check_timing classic true =
    err (invalid_config "Classical CAN configuration cannot include data timing")
check_timing fd false = err (invalid_config "CAN FD configuration requires data timing")
check_timing _ _ = ok tt

-- `CanConfigureConfig::new_with_restart`
unfoldable pub new_with_restart :
    CanMode
    → CanBitTiming
    → Option CanBitTiming
    → Bool
    → Bool
    → Option ℕ
    → HalResult CanConfigureConfig
new_with_restart mode nominal data_timing listen_only loopback restart_ms = do
  fail_if (is_some_and restart_ms (λ v. eqb v 0))
      (invalid_config "CAN restart time must be nonzero when specified")
  check_timing mode (is_some data_timing)
  ok (record {
    mode = mode;
    nominal = nominal;
    data_timing = data_timing;
    listen_only = listen_only;
    loopback = loopback;
    restart_ms = restart_ms;
  })

-- `CanConfigureConfig::new`
unfoldable new_config :
    CanMode → CanBitTiming → Option CanBitTiming → Bool → Bool → HalResult CanConfigureConfig
unfolding new_with_restart
new_config mode nominal data_timing listen_only loopback =
    new_with_restart mode nominal data_timing listen_only loopback none

pub data CanOpenConfig : Type 0 where
  attach : CanLinkExpectation → CanOpenConfig
  configure : CanConfigureConfig → CanOpenConfig

nonzero_iff : (o : Option ℕ) → (is_some_and o (λ v. eqb v 0) ≡ false) ↔ (o ≢ some 0)
nonzero_iff none = ground arith
nonzero_iff (some v) = ground arith

configured_iff :
    (mode : CanMode) (nominal : CanBitTiming) (data_timing : Option CanBitTiming)
    (listen_only loopback : Bool) (restart_ms : Option ℕ)
    → (is_ok (new_with_restart mode nominal data_timing listen_only loopback restart_ms) ≡ true)
      ↔ (((mode ≡ fd) ↔ (is_some data_timing ≡ true)) × (restart_ms ≢ some 0))
unfolding new_with_restart
configured_iff classic nominal none l b restart_ms = ground (arith, nonzero_iff restart_ms)
configured_iff classic nominal (some t) l b restart_ms = ground (arith, nonzero_iff restart_ms)
configured_iff fd nominal none l b restart_ms = ground (arith, nonzero_iff restart_ms)
configured_iff fd nominal (some t) l b restart_ms = ground (arith, nonzero_iff restart_ms)

expected_iff :
    (mode : Option CanMode) (nominal data_rate : Option ℕ) (listens loops : Option Bool)
    → (is_ok (new_link_expectation mode nominal data_rate listens loops) ≡ true)
      ↔ ((nominal ≢ some 0) × (data_rate ≢ some 0) × (mode ≡ some classic → data_rate ≡ none))
unfolding new_link_expectation
expected_iff none nominal data_rate l b = ground (arith, nonzero_iff nominal, nonzero_iff data_rate)
expected_iff (some classic) nominal data_rate l b =
    ground (arith, nonzero_iff nominal, nonzero_iff data_rate)
expected_iff (some fd) nominal data_rate l b =
    ground (arith, nonzero_iff nominal, nonzero_iff data_rate)

-- A link configuration is accepted exactly when it has a data timing in the FD mode and none in the
-- classic mode, and its restart time, if any, is not 0; a link expectation exactly when the bitrates
-- that it names are not 0 and it names no data bitrate in the classic mode.
link_configurations_iff :
    (mode : CanMode) (nominal : CanBitTiming) (data_timing : Option CanBitTiming)
    (listen_only loopback : Bool) (restart_ms : Option ℕ) (expected : Option CanMode)
    (nominal_rate data_rate : Option ℕ) (listens loops : Option Bool)
    → ((is_ok (new_with_restart mode nominal data_timing listen_only loopback restart_ms) ≡ true)
        ↔ (((mode ≡ fd) ↔ (is_some data_timing ≡ true)) × (restart_ms ≢ some 0)))
      × ((is_ok (new_link_expectation expected nominal_rate data_rate listens loops) ≡ true) ↔ (
          (nominal_rate ≢ some 0)
          × (data_rate ≢ some 0)
          × (expected ≡ some classic → data_rate ≡ none)))
link_configurations_iff mode nominal data_timing listen_only loopback restart_ms expected
      nominal_rate data_rate listens loops =
    (
      configured_iff mode nominal data_timing listen_only loopback restart_ms,
      expected_iff expected nominal_rate data_rate listens loops,
    )
