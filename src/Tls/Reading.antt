-- ===== src/Tls/Reading.antt =====
-- ReceiveBytes, ReceiveLine, RecvBlocking and SendLine of SSLSocket.
use asabru_engine.Common.{ℕ, suc, ◌≤◌, ◌==◌, ◌≡◌, refl, ◌∙◌, arith}
use asabru_engine.Common.{
  true, false, List, [], ◌∷◌, ◌++◌, append_assoc, append-nil, map, length, take, All,
}
use asabru_engine.Common.{Option, none, some, Checked, ok, fault, Bool-cases, inl, inr, ◌⊎◌}
use asabru_engine.Net.Receive.{Recv, bytes, failed, line_loop, receive_line}
use asabru_engine.Net.Receive.Bytes.{joined, take_all}
use asabru_engine.Tls.{SslSocket, unset, live, freed, close}

pub data SslError : Type 0 where
  zero_return want_read want_write other_error : SslError

-- The result of one SSL_read: bytes (none for 0), or -1 with what SSL_get_error says.
pub data SslRead : Type 0 where
  got : List ℕ → SslRead
  failure : SslError → SslRead

-- A call of SSL_read, and what SSL_pending reports behind it.
pub record SslEvent : Type 0 where
  pub read : SslRead
  pub pending : ℕ

pub data Received : Type 0 where
  received : List ℕ → SslSocket → List SslEvent → Received
  blocked : Received

abbrev pub ssl_read_buffer : ℕ
ssl_read_buffer = 1024

-- The `switch` on the error: the end of the data closes the session.
unfoldable pub on_error : SslError → SslSocket → Checked SslSocket
unfolding close
on_error zero_return o = close o
on_error want_read o = ok o
on_error want_write o = ok o
on_error other_error o = ok o

-- The loop of ReceiveBytes; each round asks for a whole buffer.
unfoldable pub ssl_receive_loop : List SslEvent → List ℕ → SslSocket → Checked Received
unfolding on_error
ssl_receive_loop [] ret o = ok blocked
ssl_receive_loop (e ∷ events) ret o = elim e.read [
  | failure k ↦ elim (on_error k o) [ fault ↦ fault | ok o' ↦ ok (received ret o' events) ]
  | got buf ↦
      let ret' = ret ++ take ssl_read_buffer buf in
      elim (e.pending == 0) [
        | true ↦ ok (received ret' o events)
        | false ↦ ssl_receive_loop events ret' o
      ]
]

-- SSL_read wants a session.
unfoldable pub ssl_receive_bytes : List SslEvent → SslSocket → Checked Received
unfolding ssl_receive_loop
ssl_receive_bytes events o = elim o.ssl [
  | unset ↦ fault
  | freed ↦ fault
  | live ↦ ssl_receive_loop events [] o
]

unfoldable pub ssl_line_loop : List SslRead → List ℕ → Option (List ℕ × List SslRead)
ssl_line_loop [] ret = none
ssl_line_loop (r ∷ rs) ret = elim r [
  | failure k ↦ some ([], rs)
  | got buf ↦ elim (take 1 buf) [
    | [] ↦ some (ret, rs)
    | b ∷ _ ↦ elim (b == 10) [
      | true ↦ some (ret ++ (b ∷ []), rs)
      | false ↦ ssl_line_loop rs (ret ++ (b ∷ []))
    ]
  ]
]

unfoldable pub ssl_receive_line : List SslRead → Option (List ℕ × List SslRead)
unfolding ssl_line_loop
ssl_receive_line rs = ssl_line_loop rs []

-- What SendLine gives to SSL_write.
unfoldable pub ssl_send_line : List ℕ → List ℕ
ssl_send_line s = s ++ (10 ∷ [])

-- Records as the session hands them over: behind each but the last more is pending.
unfoldable pub records : List (List ℕ) → List SslEvent
records [] = []
records (piece ∷ []) = record { read = got piece; pending = 0 } ∷ []
records (piece ∷ next ∷ pieces) =
    record { read = got piece; pending = suc (length next) } ∷ records (next ∷ pieces)

abbrev pub FitsBuffer : List ℕ → Type 0
FitsBuffer piece = length piece ≤ ssl_read_buffer

ssl_receive_loop-records :
    (pieces : List (List ℕ)) (piece ret : List ℕ) (later : List SslEvent) (o : SslSocket)
    → All FitsBuffer (piece ∷ pieces)
    → ssl_receive_loop (records (piece ∷ pieces) ++ later) ret o
      ≡ ok (received (ret ++ joined (piece ∷ pieces)) o later)
unfolding ssl_receive_loop records
ssl_receive_loop-records [] piece ret later o h =
    rw (take_all piece ssl_read_buffer h.0, append-nil piece)
ssl_receive_loop-records (next ∷ pieces) piece ret later o h =
    rw (more, ssl_receive_loop)
      (rw (take_all piece ssl_read_buffer h.0) (
        ssl_receive_loop-records pieces next (ret ++ piece) later o h.1
        ∙ rw (append_assoc ret piece (joined (next ∷ pieces)))))
  where
    more : (suc (length next) == 0) ≡ false
    more = ground arith

on_session :
    (events : List SslEvent) (o : SslSocket)
    → o.ssl ≡ live
    → ssl_receive_bytes events o ≡ ssl_receive_loop events [] o
unfolding ssl_receive_bytes
on_session events o e = ground arith

-- ReceiveBytes on a session returns the records that are at hand, joined, when each but the last leaves
-- something pending; it leaves the session as it is, and reads nothing behind them.
pub ssl_receive_bytes-records :
    (piece : List ℕ) (pieces : List (List ℕ)) (later : List SslEvent) (o : SslSocket)
    → o.ssl ≡ live
    → All FitsBuffer (piece ∷ pieces)
    → ssl_receive_bytes (records (piece ∷ pieces) ++ later) o
      ≡ ok (received (joined (piece ∷ pieces)) o later)
ssl_receive_bytes-records piece pieces later o e h =
    on_session (records (piece ∷ pieces) ++ later) o e
    ∙ ssl_receive_loop-records pieces piece [] later o h

-- A read that reports the end of the data by SSL_ERROR_ZERO_RETURN frees the session under the caller:
-- the next ReceiveBytes, and the Close of the destructor, use it after it is freed.
pub ssl_receive_bytes-zero_return :
    (events : List SslEvent) (pending : ℕ) (o : SslSocket)
    → o.ssl ≡ live
    → o.ctx ≡ live
    → (o' : SslSocket) × (ssl_receive_bytes
          (record { read = failure zero_return; pending = pending } ∷ events)
          o
        ≡ ok (received [] o' events))
      × (ssl_receive_bytes events o' ≡ fault)
      × (close o' ≡ fault)
unfolding ssl_receive_bytes close
ssl_receive_bytes-zero_return events pending o e e' =
    (record o { ssl = freed; ctx = freed }, ground arith, refl, refl)

abbrev pub as_recv : SslRead → Recv
as_recv (got buf) = bytes buf
as_recv (failure k) = failed

abbrev pub as_line : Option (List ℕ × List SslRead) → Option (List ℕ × List Recv)
as_line none = none
as_line (some (line, rest)) = some (line, map as_recv rest)

SslRead-cases :
    (r : SslRead) → ((k : SslError) × (r ≡ failure k)) ⊎ ((buf : List ℕ) × (r ≡ got buf))
SslRead-cases (got buf) = inr (buf, refl)
SslRead-cases (failure k) = inl (k, refl)

line_loop-as_recv :
    (rs : List SslRead) (ret : List ℕ)
    → line_loop (map as_recv rs) ret ≡ as_line (ssl_line_loop rs ret)
unfolding line_loop ssl_line_loop
line_loop-as_recv [] ret = refl
line_loop-as_recv (failure k ∷ rs) ret = refl
line_loop-as_recv (got [] ∷ rs) ret = refl
line_loop-as_recv (got (b ∷ bs) ∷ rs) ret = elim (Bool-cases (b == 10)) [
  | inl e ↦ rw (e, line_loop, ssl_line_loop)
  | inr e ↦ rw (e, line_loop, ssl_line_loop) (line_loop-as_recv rs (ret ++ (b ∷ [])))
]

-- ReceiveLine over a session does what ReceiveLine of a plain socket does, with SSL_read in place of
-- `recv`.
pub ssl_receive_line-receive_line :
    (rs : List SslRead) → receive_line (map as_recv rs) ≡ as_line (ssl_receive_line rs)
unfolding receive_line ssl_receive_line
ssl_receive_line-receive_line rs = line_loop-as_recv rs []
