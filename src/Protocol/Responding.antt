-- ===== src/Protocol/Responding.antt =====
-- What the protocol thread answers.
use asabru_engine.Common.{ℕ, zero, suc, ◌-◌, ◌<◌, ◌≡◌, refl, ◌∙◌, arith}
use asabru_engine.Common.{until_zero, List, [], ◌∷◌, ◌++◌, length, All, append_assoc, append-nil}
use asabru_engine.Common.{some, ok, fault}
use asabru_engine.Proxy.{Text, done}
use asabru_engine.Protocol.{
  c_string, zeros, buffer_with, buffer_size, Reading, read_bytes, read_fails, CProtocolHandler,
  ProtocolState, read_failed, protocol_loop, protocol_thread_handler, base_handle_data,
}

c_string-zeros : (bs : Text) (n : ℕ) → c_string (bs ++ zeros (suc n)) ≡ ok (until_zero bs)
unfolding c_string zeros
c_string-zeros [] n = refl
c_string-zeros (zero ∷ bs) n = refl
c_string-zeros (suc b ∷ bs) n = rw (c_string-zeros bs n)

c_string-buffer_with :
    (bs : Text) → length bs < buffer_size → c_string (buffer_with bs) ≡ ok (until_zero bs)
unfolding buffer_with
c_string-buffer_with bs h =
    let e : buffer_size - length bs ≡ suc (buffer_size - length bs - 1) = omega (arith, h) in
    rw e (c_string-zeros bs (buffer_size - length bs - 1))

abbrev pub FitsRequest : Text → Type 0
FitsRequest bs = length bs < buffer_size

abbrev pub requests : List Text → List Reading → List Reading
requests [] rest = rest
requests (bs ∷ reads) rest = read_bytes bs ∷ requests reads rest

-- What a handler that never throws answers to the requests, the context going from each to the next.
abbrev pub answered :
    {X : Type 0} → (Text → ℕ → X → Text) → (Text → ℕ → X → X) → X → List Text → X × List Text
answered respond change x [] = (x, [])
answered respond change x (bs ∷ reads) =
    let (x', texts) = answered respond change (change (until_zero bs) (length bs) x) reads in
    (x', respond (until_zero bs) (length bs) x ∷ texts)

module _ {X : Type 0} (handler : CProtocolHandler X) (respond : Text → ℕ → X → Text)
    (change : Text → ℕ → X → X)
    (responds : (t : Text) (n : ℕ) (x : X)
      → handler.handle_data t n x ≡ (done (respond t n x), change t n x)) where
  protocol_loop-requests :
      (reads : List Text) (rest : List Reading) (s : ProtocolState X)
      → All FitsRequest reads
      → let (x, texts) = answered respond change s.context reads in
        protocol_loop handler (requests reads rest) s
        ≡ protocol_loop handler rest (record { context = x; sent = s.sent ++ texts })
  unfolding protocol_loop
  protocol_loop-requests [] rest s h = rw (append-nil s.sent)
  protocol_loop-requests (bs ∷ reads) rest s (fits, h) =
      let text = respond (until_zero bs) (length bs) s.context in
      let x = change (until_zero bs) (length bs) s.context in
      rw (c_string-buffer_with bs fits, protocol_loop)
        (rw
          (
            responds (until_zero bs) (length bs) s.context,
            responds (until_zero bs) (length bs) s.context,
          )
          (protocol_loop-requests reads rest (record { context = x; sent = s.sent ++ (text ∷ []) })
              h
            ∙ rw (append_assoc s.sent (text ∷ []) (answered respond change x reads).1)))

  -- With a handler that answers every request and never throws, the thread hands SendBytes one response
  -- to each request of fewer than 32000 bytes, in their order, until a read fails; the context that a
  -- request leaves is that of the next. The handler sees a request only up to its first zero byte, though
  -- with the length of the whole.
  pub protocol_thread_handler-requests :
      (x : X) (reads : List Text) (rest : List Reading)
      → All FitsRequest reads
      → let (x', texts) = answered respond change x reads in
        protocol_thread_handler (some handler) x (requests reads (read_fails ∷ rest))
        ≡ ok (read_failed (record { context = x'; sent = texts }))
  unfolding protocol_thread_handler protocol_loop
  protocol_thread_handler-requests x reads rest h =
      protocol_loop-requests reads (read_fails ∷ rest) (record { context = x; sent = [] }) h

-- The response of the base handler is read beyond the end of its copy.
base_handle_data-fault : base_handle_data ≡ fault
unfolding base_handle_data
base_handle_data-fault = refl
