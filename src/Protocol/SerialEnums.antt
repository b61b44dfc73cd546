-- ===== src/Protocol/SerialEnums.antt =====
-- Enumerations of serial ports in proto/seeed/hal/v1/hal.proto, with the numbers that stand for them in a
-- message. A constructor is the name of its value.
use robot_hal.Prelude.{ℕ, ◌≡◌, ◌↔◌, Option, none, some, arith, eqb, if◌then◌else◌}
use robot_hal.Protocol.Wire.{WireEnum}

pub data DataBitsTag : Type 0 where
  data_bits_unspecified data_bits_five data_bits_six data_bits_seven data_bits_eight : DataBitsTag

abbrev data_bits_number : DataBitsTag → ℕ
data_bits_number data_bits_unspecified = 0
data_bits_number data_bits_five = 1
data_bits_number data_bits_six = 2
data_bits_number data_bits_seven = 3
data_bits_number data_bits_eight = 4

unfoldable pub data_bits_of : ℕ → Option DataBitsTag
data_bits_of n =
    if eqb n 0
    then some data_bits_unspecified
    else if eqb n 1
    then some data_bits_five
    else if eqb n 2
    then some data_bits_six
    else if eqb n 3
    then some data_bits_seven
    else if eqb n 4
    then some data_bits_eight
    else none

pub data_bits_iff : (n : ℕ) (a : DataBitsTag) → (data_bits_of n ≡ some a) ↔ (n ≡ data_bits_number a)
unfolding data_bits_of
data_bits_iff n data_bits_unspecified = ground arith
data_bits_iff n data_bits_five = ground arith
data_bits_iff n data_bits_six = ground arith
data_bits_iff n data_bits_seven = ground arith
data_bits_iff n data_bits_eight = ground arith

instance abbrev pub data_bits_wire : WireEnum DataBitsTag
data_bits_wire = record {
  number = data_bits_number;
  of_number = data_bits_of;
  of_number_iff = data_bits_iff;
}

pub data ParityTag : Type 0 where
  parity_unspecified parity_none parity_odd parity_even : ParityTag

abbrev parity_number : ParityTag → ℕ
parity_number parity_unspecified = 0
parity_number parity_none = 1
parity_number parity_odd = 2
parity_number parity_even = 3

unfoldable pub parity_of : ℕ → Option ParityTag
parity_of n =
    if eqb n 0
    then some parity_unspecified
    else if eqb n 1
    then some parity_none
    else if eqb n 2
    then some parity_odd
    else if eqb n 3
    then some parity_even
    else none

pub parity_iff : (n : ℕ) (a : ParityTag) → (parity_of n ≡ some a) ↔ (n ≡ parity_number a)
unfolding parity_of
parity_iff n parity_unspecified = ground arith
parity_iff n parity_none = ground arith
parity_iff n parity_odd = ground arith
parity_iff n parity_even = ground arith

instance abbrev pub parity_wire : WireEnum ParityTag
parity_wire = record { number = parity_number; of_number = parity_of; of_number_iff = parity_iff }

pub data StopBitsTag : Type 0 where
  stop_bits_unspecified stop_bits_one stop_bits_two : StopBitsTag

abbrev stop_bits_number : StopBitsTag → ℕ
stop_bits_number stop_bits_unspecified = 0
stop_bits_number stop_bits_one = 1
stop_bits_number stop_bits_two = 2

unfoldable pub stop_bits_of : ℕ → Option StopBitsTag
stop_bits_of n =
    if eqb n 0
    then some stop_bits_unspecified
    else if eqb n 1
    then some stop_bits_one
    else if eqb n 2
    then some stop_bits_two
    else none

pub stop_bits_iff : (n : ℕ) (a : StopBitsTag) → (stop_bits_of n ≡ some a) ↔ (n ≡ stop_bits_number a)
unfolding stop_bits_of
stop_bits_iff n stop_bits_unspecified = ground arith
stop_bits_iff n stop_bits_one = ground arith
stop_bits_iff n stop_bits_two = ground arith

instance abbrev pub stop_bits_wire : WireEnum StopBitsTag
stop_bits_wire = record {
  number = stop_bits_number;
  of_number = stop_bits_of;
  of_number_iff = stop_bits_iff;
}

pub data FlowControlTag : Type 0 where
  flow_control_unspecified flow_control_none flow_control_software flow_control_hardware :
      FlowControlTag

abbrev flow_control_number : FlowControlTag → ℕ
flow_control_number flow_control_unspecified = 0
flow_control_number flow_control_none = 1
flow_control_number flow_control_software = 2
flow_control_number flow_control_hardware = 3

unfoldable pub flow_control_of : ℕ → Option FlowControlTag
flow_control_of n =
    if eqb n 0
    then some flow_control_unspecified
    else if eqb n 1
    then some flow_control_none
    else if eqb n 2
    then some flow_control_software
    else if eqb n 3
    then some flow_control_hardware
    else none

pub flow_control_iff :
    (n : ℕ) (a : FlowControlTag) → (flow_control_of n ≡ some a) ↔ (n ≡ flow_control_number a)
unfolding flow_control_of
flow_control_iff n flow_control_unspecified = ground arith
flow_control_iff n flow_control_none = ground arith
flow_control_iff n flow_control_software = ground arith
flow_control_iff n flow_control_hardware = ground arith

instance abbrev pub flow_control_wire : WireEnum FlowControlTag
flow_control_wire = record {
  number = flow_control_number;
  of_number = flow_control_of;
  of_number_iff = flow_control_iff;
}
