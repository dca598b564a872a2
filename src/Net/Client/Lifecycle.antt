-- ===== src/Net/Client/Lifecycle.antt =====
-- Connecting, closing and failing.
use sephi.Base.{◌≡◌, List, [], ◌∷◌, foldl, refl, ◌∙◌, ap, foldl_inv_if, All, arith, true, false}
use sephi.Net.Types.{Chunk, ErrorCode, disconnected, is_error, running, terminated}
use sephi.Net.Client.{
  Client, Input, writes, closes, runs_posted, connect_done, is_connected, write, close, step,
}

-- No attempt to connect succeeds.
abbrev pub NoConnection : Input → Type 0
NoConnection (connect_done k ec) = is_error ec ≡ true
NoConnection _ = Unit

module _ {Ip : Type 0} where
  step-disconnected :
      (c : Client Ip) (i : Input)
      → NoConnection i
      → c.connection_state ≡ disconnected
      → (step c i).connection_state ≡ disconnected
  unfolding step
  step-disconnected c (connect_done k ec) ok h = ground arith
  step-disconnected c (writes m) ok h = ground arith
  step-disconnected c _ ok h = ground arith

  close-disconnected : (c : Client Ip) → (close c).connection_state ≡ disconnected
  unfolding close
  close-disconnected c = ground arith

  -- After `close`, and until an attempt to connect succeeds, `write` returns false and changes
  -- nothing.
  pub closed_refuses_writes :
      (c : Client Ip) (is : List Input) (chunk : Chunk)
      → All NoConnection is
      → write chunk (foldl step (close c) is) ≡ (foldl step (close c) is, false)
  unfolding write
  closed_refuses_writes c is chunk ok =
      let gone =
        foldl_inv_if (λ (c : Client Ip). c.connection_state ≡ disconnected) NoConnection step
          step-disconnected (close c) is ok (close-disconnected c) in
      ground arith

  run-terminated : (c : Client Ip) (is : List Input) → c.runner ≡ terminated → foldl step c is ≡ c
  unfolding step
  run-terminated c [] h = refl
  run-terminated c (i ∷ is) h =
      let same : step c i ≡ c = ground arith in
      ap (λ s. foldl step s is) same ∙ run-terminated c is h

  -- A shutdown that fails, as it does once the peer has gone, ends the process: `close` posts the
  -- throwing overload, no handler catches the exception, and nothing happens any more.
  pub failed_shutdown_terminates :
      (c : Client Ip) (ec : ErrorCode) (is : List Input)
      → c.runner ≡ running
      → c.posted ≡ []
      → is_connected c ≡ true
      → is_error ec ≡ true
      → let c' = step (step c closes) (runs_posted ec) in
        (c'.runner ≡ terminated) × (foldl step c' is ≡ c')
  unfolding step
  failed_shutdown_terminates c ec is up idle conn failed =
      (ground arith, run-terminated _ is (ground arith))
