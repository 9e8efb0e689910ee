-- ===== src/Protocol.antt =====
-- src/interface/CProtocolSocket.cpp and CProtocolSocket.h, and src/protocol-handlers/BaseProtocolHandler.h:
-- the thread that answers one client's requests. ProtocolHelper::ReadSocketBuffer is not the program's: what
-- it puts into the buffer of 32000 bytes, or that it fails, enters as a list.
pub mod Responding
pub mod Registry
pub mod Serving
mod Examples
use asabru_engine.Common.{
  ℕ, zero, suc, ◌-◌, ◌==◌, leb, if◌then◌else◌, Bool, true, false, List, [], ◌∷◌, ◌++◌, length,
}
use asabru_engine.Common.{Option, none, some, Checked, ok, fault, ◌>>=◌}
use asabru_engine.Proxy.{Text, Attempt, done, thrown}
use asabru_engine.Wire.Encoder.{codes}

-- A `char *` read as a text: up to the first zero; a block that has none is read beyond its end.
unfoldable pub c_string : List ℕ → Checked Text
c_string [] = fault
c_string (b ∷ bs) =
    let rest = c_string bs >>= λ s. ok (b ∷ s) in elim b [ zero ↦ ok [] | suc n ↦ rest ]

unfoldable pub zeros : ℕ → List ℕ
zeros zero = []
zeros (suc n) = 0 ∷ zeros n

abbrev pub buffer_size : ℕ
buffer_size = 32000

-- `memset` and the read: the buffer's bytes.
unfoldable pub buffer_with : Text → List ℕ
unfolding zeros
buffer_with bytes = bytes ++ zeros (buffer_size - length bytes)

pub data Reading : Type 0 where
  read_bytes : Text → Reading
  read_fails : Reading

pub record CProtocolHandler (X : Type 0) : Type 0 where
  pub handle_data : Text → ℕ → X → Attempt Text × X

pub record ProtocolState (X : Type 0) : Type 0 where
  pub context : X
  pub sent : List Text

pub data ProtocolEnd (X : Type 0) : Type 0 where
  no_handler : ProtocolEnd X
  read_failed handler_threw answering : ProtocolState X → ProtocolEnd X

module _ {X : Type 0} (handler : CProtocolHandler X) where
  unfoldable pub protocol_loop : List Reading → ProtocolState X → Checked (ProtocolEnd X)
  unfolding c_string buffer_with
  protocol_loop [] s = ok (answering s)
  protocol_loop (r ∷ reads) s = elim r [
    | read_fails ↦ ok (read_failed s)
    | read_bytes bytes ↦ elim (c_string (buffer_with bytes)) [
      | fault ↦ fault
      | ok request ↦
          let (response, context') = handler.handle_data request (length bytes) s.context in
          elim response [
            | thrown ↦ ok (handler_threw (record s { context = context' }))
            | done text ↦
                protocol_loop reads (record s { context = context'; sent = s.sent ++ (text ∷ []) })
          ]
    ]
  ]

unfoldable pub protocol_thread_handler :
    {X : Type 0} → Option (CProtocolHandler X) → X → List Reading → Checked (ProtocolEnd X)
unfolding protocol_loop
protocol_thread_handler none x reads = ok no_handler
protocol_thread_handler (some handler) x reads =
    protocol_loop handler reads (record { context = x; sent = [] })

-- CProtocolSocket: the handler, and the routine that Start gives to Open; `none` is the thread handler.
pub record CProtocolSocket (H P : Type 0) : Type 0 where
  pub m_handler : Option H
  pub thread_routine_override : Option P

module _ {H P : Type 0} where
  unfoldable pub new_protocol_socket : CProtocolSocket H P
  new_protocol_socket = record { m_handler = none; thread_routine_override = none }

  unfoldable pub set_protocol_handler : Option H → CProtocolSocket H P → Bool × CProtocolSocket H P
  set_protocol_handler h s = (elim h [ none ↦ false | some _ ↦ true ], record s { m_handler = h })

  unfoldable pub set_protocol_pipeline : Option P → CProtocolSocket H P → Bool × CProtocolSocket H P
  set_protocol_pipeline none s = (false, s)
  set_protocol_pipeline (some f) s = (true, record s { thread_routine_override = some f })

  -- The name and the routine that Open is called with.
  unfoldable pub protocol_start : CProtocolSocket H P → Text × Option P
  protocol_start s = (codes "<str>", s.thread_routine_override)

-- BaseProtocolHandler::HandleData copies the response without its final zero and reads the copy as a
-- text.
abbrev pub hello_response : Text
hello_response =
    codes "HTTP/1.1 200 OK\r\nContent-Type: text/plain\r\nContent-Length: 12\r\n\r\nHello World!"

unfoldable pub base_handle_data : Checked Text
unfolding c_string
base_handle_data = c_string hello_response
