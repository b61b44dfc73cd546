-- ===== src/Protocol/CanLinks/Filters.antt =====
-- The filters and the bus status of crates/robot-hal-protocol/src/can_conversion.rs: what a message is
-- decoded to is what it encodes.
use robot_hal.Prelude.{◌≡◌, ◌↔◌, ◌≤◌, true, List, map, arith, length, length-map, ltb}
use robot_hal.Core.Error.{ok, fail_if}
use robot_hal.Protocol.CanEnums.{can_mode_wire, can_bus_state_of, can_id_format_of}
use robot_hal.Protocol.CanLinks.{
  CanBusStatusMessage, CanFilterMessage, bus_status_from_proto, bus_status_to_proto,
  filter_from_proto, filter_set_from_proto, filter_set_to_proto, filter_to_proto,
}
use robot_hal.Protocol.Wire.{
  >>=-eq-ok, Inverts, Every, collect_all, collect_all-Inverts, invalid, inverts_iff,
}
use robot_hal.Can.Filter.{CanFilter, CanFilterSet, any_class, max_can_filters, max_id}
use robot_hal.Can.Adapter.{CanBusStatus}

-- What `CanFilter::new` accepts.
abbrev IsFilter : CanFilter → Type 0
IsFilter f = (f.id ≤ max_id f.format) × (f.mask ≤ max_id f.format) × (any_class f.classes ≡ true)

filter_from_proto-IsFilter :
    (m : CanFilterMessage) (f : CanFilter)
    → filter_from_proto m ≡ ok f
    → (m ≡ filter_to_proto f) × IsFilter f
unfolding filter_from_proto can_id_format_of
filter_from_proto-IsFilter m f h = ground arith

filter_returns : (f : CanFilter) → IsFilter f → filter_from_proto (filter_to_proto f) ≡ ok f
unfolding filter_from_proto can_id_format_of
filter_returns f h = ground arith

filter_from_proto-Inverts : Inverts filter_from_proto filter_to_proto IsFilter
filter_from_proto-Inverts = record {
  accepts = filter_from_proto-IsFilter;
  returns = filter_returns;
}

filters_inverts : Inverts (collect_all filter_from_proto) (map filter_to_proto) (Every IsFilter)
filters_inverts = collect_all-Inverts filter_from_proto-Inverts

abbrev pub IsFilterSet : CanFilterSet → Type 0
IsFilterSet set = (length set ≤ 64) × Every IsFilter set

set_accepts :
    (m : List CanFilterMessage) (set : CanFilterSet)
    → filter_set_from_proto m ≡ ok set
    → (m ≡ filter_set_to_proto set) × IsFilterSet set
unfolding filter_set_from_proto
set_accepts m set h =
    let (u, g, h1) =
      >>=-eq-ok
        (fail_if (ltb max_can_filters (length m))
          (invalid "can_filter_set.filters" "exceeds the 64-filter bound"))
        _ h in
    let (fs, p, h2) = >>=-eq-ok (collect_all filter_from_proto m) _ h1 in
    ground (arith, filters_inverts.accepts m fs p, h2)

set_returns :
    (set : CanFilterSet)
    → IsFilterSet set
    → filter_set_from_proto (filter_set_to_proto set) ≡ ok set
unfolding filter_set_from_proto
set_returns set (short, all) =
    ground (arith, filters_inverts.returns set all, length-map filter_to_proto set, short)

pub set_inverts : Inverts filter_set_from_proto filter_set_to_proto IsFilterSet
set_inverts = record { accepts = set_accepts; returns = set_returns }

-- A message decodes to a filter set exactly when it is the message that encodes it, it has at most
-- 64 filters, and each of them has an identifier and a mask of its format's width and enables a
-- class of frames.
filter_set_from_proto_iff :
    (m : List CanFilterMessage) (set : CanFilterSet)
    → (filter_set_from_proto m ≡ ok set) ↔ ((m ≡ filter_set_to_proto set) × IsFilterSet set)
filter_set_from_proto_iff = inverts_iff set_inverts

bus_status_accepts :
    (m : CanBusStatusMessage) (s : CanBusStatus)
    → bus_status_from_proto m ≡ ok s
    → (m ≡ bus_status_to_proto s) × Unit {0}
unfolding bus_status_from_proto can_bus_state_of
bus_status_accepts m s h = ground arith

bus_status_returns :
    (s : CanBusStatus) → Unit {0} → bus_status_from_proto (bus_status_to_proto s) ≡ ok s
unfolding bus_status_from_proto can_bus_state_of
bus_status_returns s h = ground arith

bus_status_inverts : Inverts bus_status_from_proto bus_status_to_proto (λ s. Unit {0})
bus_status_inverts = record { accepts = bus_status_accepts; returns = bus_status_returns }
