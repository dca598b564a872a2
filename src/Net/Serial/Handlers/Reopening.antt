-- ===== src/Net/Serial/Handlers/Reopening.antt =====
-- A data handler that reopens the port: the next read is asked for on the new port before that is
-- open.
use sephi.Base.{
  foldl, append_assoc, take, ◌≡◌, ℕ, List, [], ◌∷◌, ◌++◌, some, pick, length, refl, arith, false,
  true,
}
use sephi.Net.Types.{fill, Chunk, ErrorCode, is_error, success, running, connected, disconnected}
use sephi.Net.SerialParams.{PortBase}
use sephi.Net.Serial
use sephi.Net.Serial.{
  do_read, close_port, open_port, Serial, Answers, runs_posted, read_done, is_opened, reopen,
  set_options, port_options, flush,
}
use sephi.Net.Serial.Opening.{opens, set_options-all_taken, set_options_frame}
use sephi.Net.Serial.Handlers.{calls_reopen, call, step}

pick_at :
    {A : Type 0} (xs : List A) (x y : A)
    → pick (length xs) (xs ++ x ∷ (y ∷ [])) ≡ some (x, xs ++ y ∷ [])
pick_at [] x y = refl
pick_at (z ∷ xs) x y = ground (arith, pick_at xs x y)

-- The port when the data handler has reopened it and the next read has been asked for.
reopened : Serial → List ℕ → Chunk → Serial
unfolding reopen
reopened s others bytes = do_read (
    reopen (record s {
      reading = others;
      received_data = fill bytes s.received_data;
      data_calls = s.data_calls ++ take (length bytes) (fill bytes s.received_data) ∷ [];
    }))

module _ (b : PortBase) where
  reopened_lem :
      (s : Serial) (k p : ℕ) (others : List ℕ) (bytes : Chunk)
      → s.runner ≡ running
      → pick k s.reading ≡ some (p, others)
      → step b s (read_done k success bytes, calls_reopen ∷ []) ≡ reopened s others bytes
  unfolding step call reopen reopened
  reopened_lem s k p others bytes up there = ground arith

  -- A port of which nothing is posted but the tasks of `reopen` opens.
  opens_lem :
      (s : Serial) (a : Answers)
      → s.runner ≡ running
      → s.posted ≡ close_port ∷ (open_port ∷ [])
      → opens b a.port_error a s.params ≡ true
      → let t = Serial.step b (Serial.step b s (runs_posted a)) (runs_posted a) in
        t ≡ record s {
          connection_state = connected;
          posted = [];
          reading = s.reading ++ s.port ∷ [];
          options = t.options;
          connection_calls = s.connection_calls ++ (connected, success) ∷ [];
        }
  unfolding Serial.step do_read flush
  opens_lem s a up two well = ground (
    arith,
    set_options-all_taken (port_options b s.params) a.option_errors (record s { posted = [] }),
    set_options_frame (port_options b s.params) a.option_errors (record s { posted = [] }),
  )

  failed_lem :
      (t : Serial) (k p : ℕ) (others : List ℕ) (ec : ErrorCode)
      → t.runner ≡ running
      → pick k t.reading ≡ some (p, others)
      → is_error ec ≡ true
      → Serial.step b t (read_done k ec []) ≡ record t {
        connection_state = disconnected;
        received_data = fill [] t.received_data;
        reading = others;
        connection_calls = t.connection_calls ++ (disconnected, ec) ∷ [];
      }
  unfolding Serial.step
  failed_lem t k p others ec up there failed = ground arith

  -- Each state after those of `reopening_handler_ends_reading`.
  abbrev pub rereads : Serial → ℕ → Chunk → Serial
  rereads s k bytes = step b s (read_done k success bytes, calls_reopen ∷ [])

  abbrev pub reopens_well : Serial → ℕ → Chunk → Answers → Serial
  reopens_well s k bytes a =
      foldl (Serial.step b) (rereads s k bytes) (runs_posted a ∷ (runs_posted a ∷ []))

  reopens_well_lem :
      (s : Serial) (k p : ℕ) (others : List ℕ) (bytes : Chunk) (a : Answers)
      → s.runner ≡ running
      → s.posted ≡ []
      → pick k s.reading ≡ some (p, others)
      → opens b a.port_error a s.params ≡ true
      → let r = reopened s others bytes in
        let t = reopens_well s k bytes a in
        (t.runner ≡ running)
        × (is_opened t ≡ true)
        × (t.reading ≡ others ++ r.port ∷ (r.port ∷ []))
        × (t.port ≡ r.port)
        × (t.connection_calls ≡ s.connection_calls ++ (connected, success) ∷ [])
  unfolding reopened do_read reopen
  reopens_well_lem s k p others bytes a up empty there well = ground (
    arith,
    reopened_lem s k p others bytes up there,
    opens_lem (reopened s others bytes) a,
    append_assoc others ((reopened s others bytes).port ∷ []) ((reopened s others bytes).port ∷ []),
  )

  -- When the data handler of a running serial port with nothing posted reopens it, a read of the new
  -- port is asked for while that is not open. The port then opens and its users are told so; but when
  -- that read fails, they are told that the port is closed, and for them it is, while one read of it,
  -- which was asked for when it opened, is still under way.
  pub reopening_handler_ends_reading :
      (s : Serial) (k p : ℕ) (others : List ℕ) (bytes : Chunk) (a : Answers) (ec : ErrorCode)
      → s.runner ≡ running
      → s.posted ≡ []
      → pick k s.reading ≡ some (p, others)
      → opens b a.port_error a s.params ≡ true
      → is_error ec ≡ true
      → let t = reopens_well s k bytes a in
        let u = Serial.step b t (read_done (length others) ec []) in
        (is_opened (rereads s k bytes) ≡ false)
        × ((rereads s k bytes).reading ≡ others ++ t.port ∷ [])
        × (is_opened t ≡ true)
        × (is_opened u ≡ false)
        × (u.reading ≡ others ++ t.port ∷ [])
        × (u.connection_calls
            ≡ s.connection_calls ++ (connected, success) ∷ ((disconnected, ec) ∷ []))
  unfolding reopened do_read reopen
  reopening_handler_ends_reading s k p others bytes a ec up empty there well failed =
      let t = reopens_well s k bytes a in
      let (still, open', reads, same, told) =
        reopens_well_lem s k p others bytes a up empty there well in
      let e = reopened_lem s k p others bytes up there in
      let there' = pick_at others t.port t.port in
      let f =
        failed_lem t (length others) t.port (others ++ t.port ∷ []) ec still (ground arith)
          failed in
      ground (
        arith,
        append_assoc s.connection_calls ((connected, success) ∷ []) ((disconnected, ec) ∷ []),
      )
