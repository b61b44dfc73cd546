-- ===== src/Protocol/Versions.antt =====
-- crates/robot-hal-protocol/src/lib.rs: the ranges of minor versions in a handshake, and the version
-- that a client and a broker agree on.
use robot_hal.Prelude.{ℕ, ◌≡◌, ◌↔◌, ◌≤◌, not, ◌&&◌, ◌||◌, arith, ltb, eqb, if◌then◌else◌, false}
use robot_hal.Core.Names.{conflict}
use robot_hal.Core.Error.{HalResult, ok, err, ◌>>◌, fail_if, build_error}
use robot_hal.Protocol.Wire.{invalid_message}

-- The version fields of `HandshakeRequest`, and of `HandshakeResponse`.
pub record MinorRange : Type 0 where
  pub protocol_minor : ℕ
  pub minimum : ℕ
  pub maximum : ℕ

-- `handshake_minor_range`: two zeros are an offer of exactly the legacy minor.
unfoldable handshake_minor_range : MinorRange → HalResult (ℕ × ℕ)
unfolding invalid_message
handshake_minor_range r =
    if eqb r.minimum 0 && eqb r.maximum 0
    then ok (r.protocol_minor, r.protocol_minor)
    else if ltb r.maximum r.minimum || not (eqb r.protocol_minor r.maximum)
    then err
        (invalid_message "protocol minor range is invalid or conflicts with legacy protocol_minor")
    else ok (r.minimum, r.maximum)

-- `handshake_response_minor_range`
unfoldable handshake_response_minor_range : MinorRange → HalResult (ℕ × ℕ)
unfolding invalid_message
handshake_response_minor_range r =
    if eqb r.minimum 0 && eqb r.maximum 0
    then ok (r.protocol_minor, r.protocol_minor)
    else if ltb r.maximum r.minimum
        || (ltb r.protocol_minor r.minimum || ltb r.maximum r.protocol_minor)
    then err (invalid_message "broker protocol minor range does not contain the selected minor")
    else ok (r.minimum, r.maximum)

abbrev larger : ℕ → ℕ → ℕ
larger a b = if ltb a b then b else a

abbrev smaller : ℕ → ℕ → ℕ
smaller a b = if ltb b a then b else a

-- `negotiate_protocol_minor`
unfoldable pub negotiate_protocol_minor : ℕ → ℕ → ℕ → ℕ → ℕ → ℕ → HalResult ℕ
unfolding invalid_message
negotiate_protocol_minor client_major client_minimum client_maximum broker_major broker_minimum
      broker_maximum =
    do
      fail_if (ltb client_maximum client_minimum || ltb broker_maximum broker_minimum)
          (invalid_message "protocol minor range minimum exceeds maximum")
      fail_if
          (not (eqb client_major broker_major)
            || ltb (smaller client_maximum broker_maximum) (larger client_minimum broker_minimum))
          (build_error "runtime.protocol.version_incompatible" conflict "runtime.protocol.handshake"
            false "client and broker protocol version ranges do not overlap")
      ok (smaller client_maximum broker_maximum)

-- A minor version that both sides speak.
abbrev pub IsShared : ℕ → ℕ → ℕ → ℕ → ℕ → Type 0
IsShared client_minimum client_maximum broker_minimum broker_maximum v =
    (client_minimum ≤ v) × (v ≤ client_maximum) × (broker_minimum ≤ v) × (v ≤ broker_maximum)

negotiated :
    (cm cl ch bm bl bh v : ℕ)
    → cl ≤ ch
    → bl ≤ bh
    → negotiate_protocol_minor cm cl ch bm bl bh ≡ ok v
    → (cm ≡ bm) × IsShared cl ch bl bh v × (v ≡ smaller ch bh)
unfolding negotiate_protocol_minor
negotiated cm cl ch bm bl bh v c b h = ground arith

agreed :
    (cm cl ch bm bl bh w : ℕ)
    → cl ≤ ch
    → bl ≤ bh
    → cm ≡ bm
    → IsShared cl ch bl bh w
    → (negotiate_protocol_minor cm cl ch bm bl bh ≡ ok (smaller ch bh))
      × IsShared cl ch bl bh (smaller ch bh)
      × (w ≤ smaller ch bh)
unfolding negotiate_protocol_minor
agreed cm cl ch bm bl bh w c b e shared = ground arith

-- For two ranges that are not empty: the two sides agree on a minor version exactly when their
-- majors are equal, both ranges contain it, and no greater version is in both; and they agree on
-- some version exactly when the majors are equal and some version is in both ranges.
pub negotiate_protocol_minor_iff :
    (client_major client_minimum client_maximum broker_major broker_minimum broker_maximum v : ℕ)
    → client_minimum ≤ client_maximum
    → broker_minimum ≤ broker_maximum
    → ((negotiate_protocol_minor client_major client_minimum client_maximum broker_major
            broker_minimum broker_maximum
          ≡ ok v)
        ↔ ((client_major ≡ broker_major)
            × IsShared client_minimum client_maximum broker_minimum broker_maximum v
            × ((w : ℕ)
                → IsShared client_minimum client_maximum broker_minimum broker_maximum w
                → w ≤ v)))
      × (((u : ℕ) × (negotiate_protocol_minor client_major client_minimum client_maximum
                broker_major broker_minimum broker_maximum
              ≡ ok u))
          ↔ ((client_major ≡ broker_major)
              × ((w : ℕ) × IsShared client_minimum client_maximum broker_minimum broker_maximum w)))
negotiate_protocol_minor_iff cm cl ch bm bl bh v c b = (
  (
    λ h.
        let (same, shared, top) = negotiated cm cl ch bm bl bh v c b h in
        (same, shared, λ w k. omega (arith, (agreed cm cl ch bm bl bh w c b same k).2)),
    λ (same, shared, greatest).
        let (met, inside, below) = agreed cm cl ch bm bl bh v c b same shared in
        ground (arith, met, below, greatest (smaller ch bh) inside),
  ),
  (
    λ (u, h). let (same, shared, top) = negotiated cm cl ch bm bl bh u c b h in (same, (u, shared)),
    λ (same, (w, shared)). (smaller ch bh, (agreed cm cl ch bm bl bh w c b same shared).0),
  ),
)
