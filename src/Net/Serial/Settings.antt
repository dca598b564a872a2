-- ===== src/Net/Serial/Settings.antt =====
-- What a port is set to after the `set_option` calls of src/net/serial/serial.cpp, read back as the
-- settings of include/sephi/net/serial/serial_params.h.
use mathlib.Core.List.{map}
use sephi.Base.{
  ◌≡◌, ℕ, List, [], ◌∷◌, ◌++◌, Option, some, none, true, if◌then◌else◌, ◌==◌, arith, refl,
}
use sephi.Net.Types.{ErrorCode}
use sephi.Net.SerialParams.{
  BaudRate, br1200, br2400, br4800, br9600, br14400, br19200, br38400, br57600, br115200,
  CharacterSize, cs5, cs6, cs7, cs8, cs9, Parity, odd, even, StopBits, one, onepointfive, two,
  FlowControl, software, hardware, SerialParams, PortBase, IsDistinct, PortOption, baud_rate_value,
  character_size_value, parity_value, stop_bits_value, flow_control_value, baud_rate_option,
  character_size_option, parity_option, stop_bits_option, flow_control_option,
}
use sephi.Net.Serial.{Serial, Answers, port_options, handle_open}
use sephi.Net.Serial.Opening.{opens, handle_open-options}

-- The settings of a port of the system: of each kind, the value set last.
pub record Settings : Type 0 where
  pub baud_rate : ℕ
  pub character_size : ℕ
  pub stop_bits : ℕ
  pub parity : ℕ
  pub flow_control : ℕ

abbrev set : PortOption → Settings → Settings
set (PortOption.baud_rate n) k = record k { baud_rate = n }
set (PortOption.character_size n) k = record k { character_size = n }
set (PortOption.stop_bits n) k = record k { stop_bits = n }
set (PortOption.parity n) k = record k { parity = n }
set (PortOption.flow_control n) k = record k { flow_control = n }

-- The settings of one port after the options set on all of them, in order.
unfoldable pub settings : ℕ → List (ℕ × PortOption) → Settings → Settings
settings port [] k = k
settings port ((p, o) ∷ os) k = settings port os (if p == port then set o k else k)

settings-append :
    (port : ℕ) (os os' : List (ℕ × PortOption)) (k : Settings)
    → settings port (os ++ os') k ≡ settings port os' (settings port os k)
unfolding settings
settings-append port [] os' k = refl
settings-append port ((p, o) ∷ os) os' k =
    settings-append port os os' (if p == port then set o k else k)

settings-port_options :
    (b : PortBase) (port : ℕ) (p : SerialParams) (k : Settings)
    → settings port (map (λ o. (port, o)) (port_options b p)) k ≡ record {
      baud_rate = baud_rate_value p.baud_rate;
      character_size = character_size_value p.character_size;
      stop_bits = stop_bits_value b p.stop_bits;
      parity = parity_value b p.parity;
      flow_control = flow_control_value b p.flow_control;
    }
unfolding settings port_options baud_rate_option character_size_option stop_bits_option
    parity_option flow_control_option
settings-port_options b port p k = ground arith

-- A baud rate and a character size are numbers of their own; the others are enumerators of asio's.
abbrev pub baud_rate_of : ℕ → Option BaudRate
baud_rate_of n =
    if n == 1200
    then some br1200
    else if n == 2400
    then some br2400
    else if n == 4800
    then some br4800
    else if n == 9600
    then some br9600
    else if n == 14400
    then some br14400
    else if n == 19200
    then some br19200
    else if n == 38400
    then some br38400
    else if n == 57600
    then some br57600
    else if n == 115200
    then some br115200
    else none

abbrev pub character_size_of : ℕ → Option CharacterSize
character_size_of n =
    if n == 5
    then some cs5
    else if n == 6
    then some cs6
    else if n == 7
    then some cs7
    else if n == 8
    then some cs8
    else if n == 9
    then some cs9
    else none

abbrev pub parity_of : PortBase → ℕ → Option Parity
parity_of b n =
    if n == b.parity_none
    then some Parity.none
    else if n == b.parity_odd
    then some odd
    else if n == b.parity_even
    then some even
    else none

abbrev pub stop_bits_of : PortBase → ℕ → Option StopBits
stop_bits_of b n =
    if n == b.stop_bits_one
    then some one
    else if n == b.stop_bits_onepointfive
    then some onepointfive
    else if n == b.stop_bits_two
    then some two
    else none

abbrev pub flow_control_of : PortBase → ℕ → Option FlowControl
flow_control_of b n =
    if n == b.flow_control_none
    then some FlowControl.none
    else if n == b.flow_control_software
    then some software
    else if n == b.flow_control_hardware
    then some hardware
    else none

baud_rate-read : (r : BaudRate) → baud_rate_of (baud_rate_value r) ≡ some r
unfolding baud_rate_value
baud_rate-read r = ground arith

character_size-read : (c : CharacterSize) → character_size_of (character_size_value c) ≡ some c
unfolding character_size_value
character_size-read c = ground arith

module _ (b : PortBase) (d : IsDistinct b) where
  parity-read : (p : Parity) → parity_of b (parity_value b p) ≡ some p
  unfolding parity_value
  parity-read p = ground arith

  stop_bits-read : (s : StopBits) → stop_bits_of b (stop_bits_value b s) ≡ some s
  unfolding stop_bits_value
  stop_bits-read s = ground arith

  flow_control-read : (f : FlowControl) → flow_control_of b (flow_control_value b f) ≡ some f
  unfolding flow_control_value
  flow_control-read f = ground arith

  -- If asio's enumerators of one enumeration differ: a port that opens is set, whatever was set on it
  -- before, to the baud rate and the character size that the parameters name, as numbers, and to
  -- asio's enumerators for their stop bits, parity and flow control.
  pub open_port_has_params :
      (ec : ErrorCode) (a : Answers) (s : Serial) (before : Settings)
      → opens b ec a s.params ≡ true
      → let k = settings s.port (handle_open b ec a s).options before in
        (baud_rate_of k.baud_rate ≡ some s.params.baud_rate)
        × (character_size_of k.character_size ≡ some s.params.character_size)
        × (stop_bits_of b k.stop_bits ≡ some s.params.stop_bits)
        × (parity_of b k.parity ≡ some s.params.parity)
        × (flow_control_of b k.flow_control ≡ some s.params.flow_control)
  open_port_has_params ec a s before h =
      rw
        (
          handle_open-options b ec a s h,
          settings-append s.port s.options (map (λ o. (s.port, o)) (port_options b s.params))
              before,
          settings-port_options b s.port s.params (settings s.port s.options before),
        )
        (
          baud_rate-read s.params.baud_rate,
          character_size-read s.params.character_size,
          stop_bits-read s.params.stop_bits,
          parity-read s.params.parity,
          flow_control-read s.params.flow_control,
        )
