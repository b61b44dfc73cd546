-- ===== src/Can/Filter.antt =====
-- crates/robot-hal-can/src/filter.rs: acceptance filters on received frames.
use robot_hal.Prelude.{
  ℕ, ◌≤◌, ◌<◌, ◌≡◌, ◌↔◌, refl, String, Bool, true, false, not, ◌&&◌, ◌||◌, List, arith, length, any,
  ltb, eqb, bit_and, if◌then◌else◌, zero, suc,
}
use robot_hal.Core.Names.{invalid_argument}
use robot_hal.Core.Error.{HalError, HalResult, ok, ◌>>◌, fail_if, build_error}
use robot_hal.Can.Frame.{
  CanId, standard, extended, id_value, is_standard, CanFrame, CanErrorClass, classic_data,
  classic_remote, fd_data, error, is_nil,
}

abbrev pub max_can_filters : ℕ
max_can_filters = 64

pub data CanIdFormat : Type 0 where
  only_standard only_extended either : CanIdFormat

pub record CanFrameClasses : Type 0 where
  pub takes_data : Bool
  pub takes_remote : Bool
  pub takes_error : Bool

-- `CanFrameClasses::any`
abbrev pub any_class : CanFrameClasses → Bool
any_class c = c.takes_data || (c.takes_remote || c.takes_error)

abbrev pub data_only : CanFrameClasses
data_only = record { takes_data = true; takes_remote = false; takes_error = false }

pub record CanFilter : Type 0 where
  pub id : ℕ
  pub mask : ℕ
  pub format : CanIdFormat
  pub classes : CanFrameClasses

abbrev invalid_filter : String → HalError
invalid_filter message =
    build_error "can.filter.invalid" invalid_argument "can.filter" false message

abbrev pub max_id : CanIdFormat → ℕ
max_id only_standard = 0x7ff
max_id _ = 0x1fff_ffff

-- `CanFilter::new`
unfoldable pub new_filter : ℕ → ℕ → CanIdFormat → CanFrameClasses → HalResult CanFilter
new_filter id mask format classes = do
  fail_if (ltb (max_id format) id || ltb (max_id format) mask)
      (invalid_filter "CAN filter ID or mask exceeds format width")
  fail_if (not (any_class classes)) (invalid_filter "CAN filter must enable a frame class")
  ok (record { id = id; mask = mask; format = format; classes = classes })

abbrev format_matches : CanIdFormat → Bool → Bool
format_matches only_standard standard_id = standard_id
format_matches only_extended standard_id = not standard_id
format_matches either standard_id = true

abbrev id_matches : CanFilter → CanId → Bool → Bool
id_matches f id class_enabled =
    if not class_enabled
    then false
    else format_matches f.format (is_standard id)
      && eqb (bit_and (id_value id) f.mask) (bit_and f.id f.mask)

-- `CanFilter::matches`; the `unreachable!` arm is the error frame, answered before it.
unfoldable pub matches : CanFilter → CanFrame → Bool
matches f (error classes payload) = f.classes.takes_error
matches f (classic_data id payload) = id_matches f id f.classes.takes_data
matches f (fd_data id payload brs esi) = id_matches f id f.classes.takes_data
matches f (classic_remote id dlc) = id_matches f id f.classes.takes_remote

abbrev pub CanFilterSet : Type 0
CanFilterSet = List CanFilter

-- `CanFilterSet::new`
unfoldable pub new_filter_set : List CanFilter → HalResult CanFilterSet
new_filter_set filters = do
  fail_if (ltb max_can_filters (length filters))
      (invalid_filter "CAN filter set exceeds 64 filters")
  ok filters

-- `CanFilterSet::matches`
unfoldable pub set_matches : CanFilterSet → CanFrame → Bool
set_matches filters frame = is_nil filters || any (λ f. matches f frame) filters

-- Whether a mask leaves every value under a bound as it is.
keeps_below : ℕ → ℕ → Bool
keeps_below mask zero = true
keeps_below mask (suc bound) =
    if eqb (bit_and bound mask) bound then keeps_below mask bound else false

kept : (mask bound v : ℕ) → v < bound → keeps_below mask bound ≡ true → bit_and v mask ≡ v
unfolding keeps_below
kept mask zero v below h = absurd (omega arith)
kept mask (suc bound) v below h = ground (arith, kept mask bound v)

eleven_bits : keeps_below 0x7ff 2048 ≡ true
unfolding keeps_below
eleven_bits = refl

standard_mask : (v : ℕ) → v < 2048 → bit_and v 0x7ff ≡ v
standard_mask v below = kept 0x7ff 2048 v below eleven_bits

-- A filter on all eleven bits of a standard identifier, in the standard format and for data frames
-- only, accepts exactly the classic and FD data frames with that standard identifier: no remote or
-- error frame, no extended identifier and no other standard identifier.
matches_exact :
    (id : ℕ) (v : ℕ) (payload : List ℕ) (brs esi : Bool) (dlc : ℕ) (x : ℕ)
    (error_classes : List CanErrorClass)
    → id < 2048
    → v < 2048
    → let f : CanFilter = record {
      id = id;
      mask = 0x7ff;
      format = only_standard;
      classes = data_only;
    } in
      ((matches f (classic_data (standard v) payload) ≡ true) ↔ (v ≡ id))
      × ((matches f (fd_data (standard v) payload brs esi) ≡ true) ↔ (v ≡ id))
      × (matches f (classic_data (extended x) payload) ≡ false)
      × (matches f (fd_data (extended x) payload brs esi) ≡ false)
      × (matches f (classic_remote (standard v) dlc) ≡ false)
      × (matches f (error error_classes payload) ≡ false)
unfolding matches
matches_exact id v payload brs esi dlc x error_classes h k =
    ground (arith, standard_mask id h, standard_mask v k)

-- An accepted filter names an identifier and a mask of its format's width, at most 29 bits, and
-- enables a class of frames; a filter that does all this is accepted unchanged.
new_filter_iff :
    (id mask : ℕ) (format : CanIdFormat) (classes : CanFrameClasses)
    → (new_filter id mask format classes
        ≡ ok (record { id = id; mask = mask; format = format; classes = classes }))
      ↔ ((id ≤ max_id format) × (mask ≤ max_id format) × (any_class classes ≡ true))
unfolding new_filter
new_filter_iff id mask format classes = ground arith
