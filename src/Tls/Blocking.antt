-- ===== src/Tls/Blocking.antt =====
-- RecvBlocking of SSLSocket, and its copy constructor. As in Socket, the result of the call that reads is
-- kept as a `size_t`; SSL_read takes the number of bytes as an `int`, and fails on a negative one.
use asabru_engine.Common.{
  ℕ, zero, suc, ◌+◌, ◌-◌, ◌%◌, ◌^◌, ◌<◌, ◌==◌, ◌≡◌, refl, ltb, if◌then◌else◌, arith,
}
use asabru_engine.Common.{true, false, List, [], ◌∷◌, ◌++◌, length, take, map, Bool-cases, inl, inr}
use asabru_engine.Common.{List-cases, fault, none}
use asabru_engine.Net.Blocking.{
  Filling, filled, waiting, underrun, step_back, fill_loop, recv_blocking,
}
use asabru_engine.Tls.{SslSocket, unset, close}
use asabru_engine.Tls.Reading.{
  SslRead, got, failure, SslEvent, other_error, as_recv, ssl_receive_bytes,
}

pub data SslFilling : Type 0 where
  ssl_filled : ℕ → List ℕ → List SslRead → SslFilling
  ssl_waiting ssl_underrun : SslFilling

-- What SSL_read answers when it is asked for `remaining` bytes.
unfoldable pub asked : ℕ → SslRead → SslRead
asked remaining (failure k) = failure k
asked remaining (got buf) =
    let num = remaining % 2 ^ 32 in
    if ltb num (2 ^ 31) then got (take num buf) else failure other_error

unfoldable pub ssl_fill_loop : List SslRead → ℕ → ℕ → ℕ → List ℕ → SslFilling
unfolding asked step_back
ssl_fill_loop [] len remaining behind buffer = ssl_waiting
ssl_fill_loop (r ∷ rs) len remaining behind buffer =
    let (behind', buffer') = step_back behind buffer in
    let again = ssl_fill_loop rs len ((remaining + 1) % 2 ^ 64) behind' buffer' in
    elim (asked remaining r) [
      | failure k ↦ again
      | got buf ↦ elim buf [
        | [] ↦ ssl_filled 0 buffer rs
        | b ∷ bs ↦ elim behind [
          | suc n ↦ ssl_underrun
          | zero ↦
              let left = remaining - length (b ∷ bs) in
              elim (left == 0) [
                | true ↦ ssl_filled len (buffer ++ (b ∷ bs)) rs
                | false ↦ ssl_fill_loop rs len left 0 (buffer ++ (b ∷ bs))
              ]
        ]
      ]
    ]

-- The call of `ioctl` in front of the loop only logs.
unfoldable pub ssl_recv_blocking : List SslRead → ℕ → SslFilling
unfolding ssl_fill_loop
ssl_recv_blocking events len = ssl_fill_loop events (len % 2 ^ 32) len 0 []

-- The copy constructor hands the descriptor to the base class, and sets neither of its own pointers.
unfoldable pub copy_ssl_socket : SslSocket → SslSocket
copy_ssl_socket o = record { s = o.s; ctx = unset; ssl = unset; verify_peer = none }

abbrev pub as_filling : SslFilling → Filling
as_filling (ssl_filled n buffer rest) = filled n buffer (map as_recv rest)
as_filling ssl_waiting = waiting
as_filling ssl_underrun = underrun

asked-got :
    (remaining : ℕ) (buf : List ℕ)
    → remaining < 2 ^ 31
    → asked remaining (got buf) ≡ got (take remaining buf)
unfolding asked
asked-got remaining buf h = rw (small, below)
  where
    small : remaining % 2 ^ 32 ≡ remaining
    small = omega (arith, h)

    below : ltb remaining (2 ^ 31) ≡ true
    below = ground (arith, h)

fill_loop-as_recv :
    (rs : List SslRead) (len remaining behind : ℕ) (buffer : List ℕ)
    → remaining + length rs < 2 ^ 31
    → fill_loop (map as_recv rs) len remaining behind buffer
      ≡ as_filling (ssl_fill_loop rs len remaining behind buffer)
unfolding fill_loop ssl_fill_loop
fill_loop-as_recv [] len remaining behind buffer h = refl
fill_loop-as_recv (failure k ∷ rs) len remaining behind buffer h =
    let (behind', buffer') = step_back behind buffer in
    fill_loop-as_recv rs len ((remaining + 1) % 2 ^ 64) behind' buffer' (omega (arith, h))
fill_loop-as_recv (got buf ∷ rs) len remaining (suc n) buffer h =
    rw (asked-got remaining buf (omega (arith, h)), ssl_fill_loop)
      (elim (List-cases (take remaining buf)) [
        | inl none_there ↦ rw (none_there, fill_loop)
        | inr (b, bs, some_there) ↦ rw (some_there, fill_loop)
      ])
fill_loop-as_recv (got buf ∷ rs) len remaining zero buffer h =
    rw (asked-got remaining buf (omega (arith, h)), ssl_fill_loop)
      (elim (List-cases (take remaining buf)) [
        | inl none_there ↦ rw (none_there, fill_loop)
        | inr (b, bs, some_there) ↦
            rw (some_there, fill_loop)
              (elim (Bool-cases (remaining - length (b ∷ bs) == 0)) [
                | inl e ↦ rw (e, fill_loop)
                | inr e ↦
                    rw (e, fill_loop)
                      (fill_loop-as_recv rs len (remaining - length (b ∷ bs)) 0 (buffer ++ (b ∷ bs))
                        (omega (arith, h)))
              ])
      ])

-- For a length that an `int` holds, with room for one more at each failure, RecvBlocking over a session
-- does what RecvBlocking of a plain socket does, with SSL_read in place of `recv`.
pub ssl_recv_blocking-recv_blocking :
    (rs : List SslRead) (len : ℕ)
    → len + length rs < 2 ^ 31
    → recv_blocking (map as_recv rs) len ≡ as_filling (ssl_recv_blocking rs len)
unfolding recv_blocking ssl_recv_blocking
ssl_recv_blocking-recv_blocking rs len h = fill_loop-as_recv rs (len % 2 ^ 32) len 0 [] h

-- A copy has the descriptor of its original and no session: every ReceiveBytes on it, and the Close of
-- its destructor, goes through a pointer that was never set.
pub copy_ssl_socket-faults :
    (o : SslSocket) (events : List SslEvent)
    → (ssl_receive_bytes events (copy_ssl_socket o) ≡ fault) × (close (copy_ssl_socket o) ≡ fault)
unfolding copy_ssl_socket ssl_receive_bytes close
copy_ssl_socket-faults o events = (refl, refl)
