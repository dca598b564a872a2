-- ===== src/Net/Serial/Handlers/Examples.antt =====
-- Runs of a serial port with handlers that call it back: tests, and the theorems at concrete inputs.
use sephi.Base.{◌≡◌, List, [], ◌∷◌, ◌++◌, foldl, outputs, refl, false, true}
use sephi.Net.Types.{success, connected, disconnected}
use sephi.Net.SerialParams.{br9600, serial_params_8n1, PortBase}
use sephi.Net.Serial
use sephi.Net.Serial.{
  Serial, Input, Answers, construct, writes, reopens, runs_posted, read_done, write_done, is_opened,
  set_options, port_options,
}
use sephi.Net.Serial.Handlers.{Call, calls_write, calls_reopen, step}
use sephi.Net.Serial.Handlers.Calls.{sequential}
use sephi.Net.Serial.Opening.{all_taken}
use sephi.Net.Serial.Handlers.Sequential.{callbacks_are_sequential}
use sephi.Net.Serial.Handlers.Reopening.{rereads, reopens_well, reopening_handler_ends_reading}

abbrev port_base : PortBase
port_base = record {
  parity_none = 0;
  parity_odd = 1;
  parity_even = 2;
  stop_bits_one = 0;
  stop_bits_onepointfive = 1;
  stop_bits_two = 2;
  flow_control_none = 0;
  flow_control_software = 1;
  flow_control_hardware = 2;
}

abbrev all_well : Answers
all_well = record { port_error = 0; option_errors = λ _. 0; flush_result = 0; errno = 0 }

abbrev fresh : Serial
fresh = construct "COM3" (serial_params_8n1 br9600)

-- The connection handler greets, the data handler echoes, and the write of the greeting fails, upon
-- which the connection handler reopens the port.
abbrev talk : List (Input × List Call)
talk =
    (runs_posted all_well, calls_write (1 ∷ []) ∷ [])
    ∷ ((read_done 0 success (2 ∷ []), calls_write (2 ∷ []) ∷ [])
        ∷ ((runs_posted all_well, []) ∷ ((write_done 0 5, calls_reopen ∷ []) ∷ [])))

talk_steps :
    outputs (step port_base) (sequential port_base) fresh talk
    ≡ runs_posted all_well
      ∷ writes (1 ∷ [])
      ∷ read_done 0 success (2 ∷ [])
      ∷ writes (2 ∷ [])
      ∷ runs_posted all_well
      ∷ write_done 0 5
      ∷ reopens
      ∷ []
unfolding outputs step sequential construct Serial.step set_options port_options
talk_steps = refl

callbacks_are_sequential_example :
    foldl (step port_base) fresh talk
    ≡ foldl
        (Serial.step port_base)
        fresh
        (outputs (step port_base) (sequential port_base) fresh talk)
callbacks_are_sequential_example =
    callbacks_are_sequential port_base fresh talk
      ((λ e f. (tt, tt)), ((λ e. (tt, tt)), ((λ e f. tt), (tt, tt))))

-- A port that is open, with one read under way.
abbrev open_one : Serial
open_one = Serial.step port_base fresh (runs_posted all_well)

-- The read fails with EBADF.
reopening_handler_ends_reading_example :
    let t = reopens_well port_base open_one 0 (2 ∷ []) all_well in
    let u = Serial.step port_base t (read_done 0 9 []) in
    (is_opened (rereads port_base open_one 0 (2 ∷ [])) ≡ false)
    × ((rereads port_base open_one 0 (2 ∷ [])).reading ≡ t.port ∷ [])
    × (is_opened t ≡ true)
    × (is_opened u ≡ false)
    × (u.reading ≡ t.port ∷ [])
    × (u.connection_calls
        ≡ open_one.connection_calls ++ (connected, success) ∷ ((disconnected, 9) ∷ []))
unfolding Serial.step construct set_options port_options all_taken
reopening_handler_ends_reading_example =
    reopening_handler_ends_reading port_base open_one 0 1 [] (2 ∷ []) all_well 9 refl refl refl refl
      refl
