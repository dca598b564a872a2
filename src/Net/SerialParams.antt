-- ===== src/Net/SerialParams.antt =====
-- include/sephi/net/serial/serial_params.h and src/net/serial/serial_params.cpp: the settings of a
-- serial port.
use sephi.Base.{◌≢◌, ℕ}

pub data BaudRate : Type 0 where
  br1200 br2400 br4800 br9600 br14400 br19200 br38400 br57600 br115200 : BaudRate

pub data CharacterSize : Type 0 where
  cs5 cs6 cs7 cs8 cs9 : CharacterSize

pub data Parity : Type 0 where
  none odd even : Parity

pub data StopBits : Type 0 where
  one onepointfive two : StopBits

pub data FlowControl : Type 0 where
  none software hardware : FlowControl

-- The enumerators of `asio::serial_port_base`, which are asio's.
pub record PortBase : Type 0 where
  pub parity_none : ℕ
  pub parity_odd : ℕ
  pub parity_even : ℕ
  pub stop_bits_one : ℕ
  pub stop_bits_onepointfive : ℕ
  pub stop_bits_two : ℕ
  pub flow_control_none : ℕ
  pub flow_control_software : ℕ
  pub flow_control_hardware : ℕ

-- Enumerators of one enumeration differ.
pub record IsDistinct (b : PortBase) : Type 0 where
  pub none-ne-odd : b.parity_none ≢ b.parity_odd
  pub none-ne-even : b.parity_none ≢ b.parity_even
  pub odd-ne-even : b.parity_odd ≢ b.parity_even
  pub one-ne-onepointfive : b.stop_bits_one ≢ b.stop_bits_onepointfive
  pub one-ne-two : b.stop_bits_one ≢ b.stop_bits_two
  pub onepointfive-ne-two : b.stop_bits_onepointfive ≢ b.stop_bits_two
  pub none-ne-software : b.flow_control_none ≢ b.flow_control_software
  pub none-ne-hardware : b.flow_control_none ≢ b.flow_control_hardware
  pub software-ne-hardware : b.flow_control_software ≢ b.flow_control_hardware

pub record SerialParams : Type 0 where
  pub baud_rate : BaudRate
  pub character_size : CharacterSize
  pub parity : Parity
  pub stop_bits : StopBits
  pub flow_control : FlowControl

-- The constructor.
abbrev construct : BaudRate → CharacterSize → Parity → StopBits → FlowControl → SerialParams
construct baud_rate character_size parity stop_bits flow_control = record {
  baud_rate = baud_rate;
  character_size = character_size;
  parity = parity;
  stop_bits = stop_bits;
  flow_control = flow_control;
}

-- `SerialParams8N1`, with its default arguments.
unfoldable pub serial_params_8n1 : BaudRate → SerialParams
serial_params_8n1 baud_rate = construct baud_rate cs8 Parity.none one FlowControl.none

-- `static_cast<unsigned>(baud_rate_)`: the value of the enumerator.
unfoldable pub baud_rate_value : BaudRate → ℕ
baud_rate_value br1200 = 1200
baud_rate_value br2400 = 2400
baud_rate_value br4800 = 4800
baud_rate_value br9600 = 9600
baud_rate_value br14400 = 14400
baud_rate_value br19200 = 19200
baud_rate_value br38400 = 38400
baud_rate_value br57600 = 57600
baud_rate_value br115200 = 115200

unfoldable pub character_size_value : CharacterSize → ℕ
character_size_value cs5 = 5
character_size_value cs6 = 6
character_size_value cs7 = 7
character_size_value cs8 = 8
character_size_value cs9 = 9

unfoldable pub parity_value : PortBase → Parity → ℕ
parity_value b Parity.none = b.parity_none
parity_value b odd = b.parity_odd
parity_value b even = b.parity_even

unfoldable pub stop_bits_value : PortBase → StopBits → ℕ
stop_bits_value b one = b.stop_bits_one
stop_bits_value b onepointfive = b.stop_bits_onepointfive
stop_bits_value b two = b.stop_bits_two

unfoldable pub flow_control_value : PortBase → FlowControl → ℕ
flow_control_value b FlowControl.none = b.flow_control_none
flow_control_value b software = b.flow_control_software
flow_control_value b hardware = b.flow_control_hardware

-- A value that is given to `set_option`.
pub data PortOption : Type 0 where
  baud_rate character_size stop_bits parity flow_control : ℕ → PortOption

-- The five accessors of `SerialParams`, in asio's option types.
unfoldable pub baud_rate_option : SerialParams → PortOption
baud_rate_option p = PortOption.baud_rate (baud_rate_value p.baud_rate)

unfoldable pub character_size_option : SerialParams → PortOption
character_size_option p = PortOption.character_size (character_size_value p.character_size)

unfoldable pub parity_option : PortBase → SerialParams → PortOption
parity_option b p = PortOption.parity (parity_value b p.parity)

unfoldable pub stop_bits_option : PortBase → SerialParams → PortOption
stop_bits_option b p = PortOption.stop_bits (stop_bits_value b p.stop_bits)

unfoldable pub flow_control_option : PortBase → SerialParams → PortOption
flow_control_option b p = PortOption.flow_control (flow_control_value b p.flow_control)
