-- ===== src/Net/Serial/Examples.antt =====
-- Runs of the serial port: tests, and the theorems at concrete inputs.
use sephi.Base.{false, inr, ◌≡◌, List, [], ◌∷◌, foldl, outputs, refl, some, true, arith}
use sephi.Net.Types.{Chunk, disconnected, success}
use sephi.Net.SerialParams.{
  SerialParams, PortBase, IsDistinct, PortOption, br9600, cs8, one, Parity, FlowControl,
  serial_params_8n1,
}
use sephi.Net.Serial.{
  Serial, Input, Answers, write_done, are_all_messages_sent, writes, reopens, runs_posted,
  read_done, construct, is_opened, set_options, port_options, handle_open, flush, step,
}
use sephi.Net.Serial.Opening.{opens, all_taken}
use sephi.Net.Serial.Delivery.{failed_port_write_stalls}
use sephi.Net.Serial.Settings.{
  Settings, settings, baud_rate_of, character_size_of, stop_bits_of, parity_of, flow_control_of,
  open_port_has_params,
}
use sephi.Net.Serial.Sending.{chunks, accepted, ended}
use sephi.Net.Channel.{Action, act_all, accepted_by, ended_by, channel, new_channel}
use sephi.Net.Serial.Delivery.Refinement.{serial_refines_channel}

-- The enumerators as they are numbered in asio's declarations.
abbrev port_base : PortBase
port_base = record {
  parity_none = 0;
  parity_odd = 1;
  parity_even = 2;
  stop_bits_one = 0;
  stop_bits_onepointfive = 1;
  stop_bits_two = 2;
  flow_control_none = 0;
  flow_control_software = 1;
  flow_control_hardware = 2;
}

abbrev params : SerialParams
params = serial_params_8n1 br9600

abbrev all_well : Answers
all_well = record { port_error = 0; option_errors = λ _. 0; flush_result = 0; errno = 0 }

-- `tcflush` fails with EIO.
abbrev flush_fails : Answers
flush_fails = record all_well { flush_result = 1; errno = 5 }

-- The baud rate is refused with EINVAL.
abbrev rate_refused : Answers
rate_refused = record all_well {
  option_errors = λ o. elim o [ PortOption.baud_rate _ ↦ 22 | _ ↦ 0 ];
}

abbrev fresh : Serial
fresh = construct "COM3" params

abbrev chunk : Chunk
chunk = 1 ∷ 2 ∷ []

-- The port is opened, two chunks are accepted, and the first is under way.
abbrev busy : List Input
busy =
    runs_posted all_well
    ∷ writes chunk
    ∷ writes (3 ∷ [])
    ∷ runs_posted all_well
    ∷ read_done 0 success (7 ∷ [])
    ∷ []

busy_state :
    let s = foldl (step port_base) fresh busy in
    (is_opened s ≡ true)
    × (s.written ≡ chunk ∷ [])
    × (chunks s.posted ≡ (3 ∷ []) ∷ [])
    × (s.data_calls ≡ (7 ∷ []) ∷ [])
unfolding step construct set_options port_options
busy_state = (refl, refl, refl, refl)

flush_fails_state :
    (handle_open port_base 0 flush_fails fresh).connection_calls ≡ (disconnected, 5) ∷ []
unfolding handle_open construct set_options port_options
flush_fails_state = refl

-- The port is opened anew, and another chunk is accepted.
abbrev reopened : List Input
reopened =
    reopens
    ∷ runs_posted all_well
    ∷ runs_posted all_well
    ∷ runs_posted all_well
    ∷ writes chunk
    ∷ runs_posted all_well
    ∷ []

abbrev writing_chunk : Serial
writing_chunk = foldl (step port_base) fresh busy

failed_port_write_stalls_example :
    let s = foldl (step port_base) (step port_base writing_chunk (write_done 0 5)) reopened in
    (s.written ≡ chunk ∷ []) × (are_all_messages_sent s ≡ false)
unfolding step construct set_options port_options
failed_port_write_stalls_example =
    failed_port_write_stalls port_base writing_chunk chunk 5 reopened refl refl (inr refl) refl

abbrev no_port : List Input
no_port = runs_posted (record all_well { port_error = 2 }) ∷ read_done 0 5 [] ∷ []

port_base-IsDistinct : IsDistinct port_base
port_base-IsDistinct = omega arith

-- A port that was set to 1200 bauds, by what used it before.
abbrev used : Settings
used = record { baud_rate = 1200; character_size = 7; stop_bits = 2; parity = 1; flow_control = 1 }

fresh_opens : opens port_base success all_well fresh.params ≡ true
unfolding port_options all_taken flush
fresh_opens = ground arith

open_port_has_params_example :
    let k = settings fresh.port (handle_open port_base success all_well fresh).options used in
    (baud_rate_of k.baud_rate ≡ some br9600)
    × (character_size_of k.character_size ≡ some cs8)
    × (stop_bits_of port_base k.stop_bits ≡ some one)
    × (parity_of port_base k.parity ≡ some Parity.none)
    × (flow_control_of port_base k.flow_control ≡ some FlowControl.none)
unfolding construct serial_params_8n1
open_port_has_params_example =
    open_port_has_params port_base port_base-IsDistinct success all_well fresh used fresh_opens

serial_refines_channel_example :
    let s = foldl (step port_base) (construct "COM3" params) busy in
    (as' : List Action) × (act_all as' new_channel
      ≡ some (channel s.written s.writing s.sending_messages (chunks s.posted)))
    × (accepted_by as' ≡ outputs (step port_base) accepted (construct "COM3" params) busy)
    × (ended_by as' ≡ outputs (step port_base) ended (construct "COM3" params) busy)
serial_refines_channel_example = serial_refines_channel port_base "COM3" params busy
