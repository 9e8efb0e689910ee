-- ===== src/Tls/Life.antt =====
-- The life of an SSLSocket behind its constructor: reads and explicit calls of Close in any order, and the
-- destructor, which closes the session in any case.
use asabru_engine.Common.{ℕ, ◌==◌, ◌≡◌, refl, Bool, true, false, List, [], ◌∷◌, ◌++◌, take}
use asabru_engine.Common.{Option, none, some, Checked, ok, fault, Bool-cases, inl, inr}
use asabru_engine.Tls.{SslSocket, live, freed, close, free_session}
use asabru_engine.Tls.Reading.{
  SslRead, got, failure, zero_return, want_read, want_write, other_error, SslEvent, Received,
  received, blocked, ssl_receive_loop, ssl_receive_bytes, ssl_read_buffer, on_error,
}

-- A call of ReceiveBytes with what OpenSSL answers during it, or of Close.
pub data Use : Type 0 where
  reads : List SslEvent → Use
  closes : Use

-- The calls one after the other and the destructor; `none` where a read does not come back.
unfoldable pub live_out : List Use → SslSocket → Checked (Option SslSocket)
unfolding ssl_receive_bytes close
live_out [] o = elim (close o) [ fault ↦ fault | ok o' ↦ ok (some o') ]
live_out (reads events ∷ uses) o = elim (ssl_receive_bytes events o) [
  | fault ↦ fault
  | ok r ↦ elim r [ blocked ↦ ok none | received text o' rest ↦ live_out uses o' ]
]
live_out (closes ∷ uses) o = elim (close o) [ fault ↦ fault | ok o' ↦ live_out uses o' ]

-- How a read, or a whole life, comes out: it does not come back, it goes on, or the session is over too
-- early.
pub data Fate : Type 0 where
  stuck fine over : Fate

abbrev pub fate_of_read : List SslEvent → Fate
fate_of_read [] = stuck
fate_of_read (e ∷ events) = elim e.read [
  | failure k ↦ elim k [
    | zero_return ↦ over
    | want_read ↦ fine
    | want_write ↦ fine
    | other_error ↦ fine
  ]
  | got buf ↦
      let later = fate_of_read events in elim (e.pending == 0) [ true ↦ fine | false ↦ later ]
]

-- A read that is stuck or ends the session decides; behind any other the later calls do.
abbrev pub read_then : Fate → Fate → Fate
read_then stuck later = stuck
read_then fine later = later
read_then over later = over

abbrev pub fate : List Use → Fate
fate [] = fine
fate (closes ∷ uses) = over
fate (reads events ∷ uses) = read_then (fate_of_read events) (fate uses)

abbrev pub session : ℕ → Option Bool → SslSocket
session s verify_peer = record { s = s; ctx = live; ssl = live; verify_peer = verify_peer }

abbrev pub closed : ℕ → Option Bool → SslSocket
closed s verify_peer = record { s = s; ctx = freed; ssl = freed; verify_peer = verify_peer }

abbrev pub ended_as : ℕ → Option Bool → Fate → Checked (Option SslSocket)
ended_as s v stuck = ok none
ended_as s v fine = ok (some (closed s v))
ended_as s v over = fault

module _ (s : ℕ) (v : Option Bool) where
  abbrev ReturnsWith : Checked Received → SslSocket → Type 0
  ReturnsWith m o = (text : List ℕ) × (rest : List SslEvent) × (m ≡ ok (received text o rest))

  abbrev ComesOut : Checked Received → Fate → Type 0
  ComesOut m stuck = m ≡ ok blocked
  ComesOut m fine = ReturnsWith m (session s v)
  ComesOut m over = ReturnsWith m (closed s v)

  abbrev Reads : List SslEvent → List ℕ → Type 0
  Reads events ret = ComesOut (ssl_receive_loop events ret (session s v)) (fate_of_read events)

  Reads-event :
      (read : SslRead) (pending : ℕ) (events : List SslEvent) (ret : List ℕ)
      → ((ret : List ℕ) → Reads events ret)
      → Reads (record { read = read; pending = pending } ∷ events) ret
  unfolding ssl_receive_loop on_error close free_session
  Reads-event (failure zero_return) pending events ret later = (ret, events, refl)
  Reads-event (failure want_read) pending events ret later = (ret, events, refl)
  Reads-event (failure want_write) pending events ret later = (ret, events, refl)
  Reads-event (failure other_error) pending events ret later = (ret, events, refl)
  Reads-event (got buf) pending events ret later = elim (Bool-cases (pending == 0)) [
    | inl e ↦ rw (e, ssl_receive_loop, fate_of_read) (ret ++ take ssl_read_buffer buf, events, refl)
    | inr e ↦ rw (e, ssl_receive_loop, fate_of_read) (later (ret ++ take ssl_read_buffer buf))
  ]

  -- The session stays, or is freed, as the reads of the loop say.
  ssl_receive_loop-Reads : (events : List SslEvent) (ret : List ℕ) → Reads events ret
  unfolding ssl_receive_loop
  ssl_receive_loop-Reads [] ret = refl
  ssl_receive_loop-Reads (e ∷ events) ret =
      Reads-event e.read e.pending events ret (ssl_receive_loop-Reads events)

  -- Once the session is freed, every use, and the destructor, is a fault.
  live_out-closed : (uses : List Use) → live_out uses (closed s v) ≡ fault
  unfolding live_out ssl_receive_bytes close free_session
  live_out-closed [] = refl
  live_out-closed (reads events ∷ uses) = refl
  live_out-closed (closes ∷ uses) = refl

  live_out-reads :
      (uses : List Use) (events : List SslEvent) (f : Fate)
      → ComesOut (ssl_receive_loop events [] (session s v)) f
      → live_out uses (session s v) ≡ ended_as s v (fate uses)
      → live_out (reads events ∷ uses) (session s v) ≡ ended_as s v (read_then f (fate uses))
  unfolding live_out ssl_receive_bytes
  live_out-reads uses events stuck r later = rw (r, live_out)
  live_out-reads uses events fine (text, rest, r) later = rw (r, live_out) later
  live_out-reads uses events over (text, rest, r) later = rw (r, live_out) (live_out-closed uses)

  -- Behind its constructor, with the session and its context set, an SSLSocket is only used, and its
  -- destructor run, in order if no read ends by SSL_ERROR_ZERO_RETURN and Close is never called: the
  -- destructor then frees both, once. After the first such read or call some later step uses what was
  -- freed, at the latest the destructor. Before either, a read that waits for ever stops everything.
  pub live_out-fate : (uses : List Use) → live_out uses (session s v) ≡ ended_as s v (fate uses)
  unfolding live_out close free_session
  live_out-fate [] = refl
  live_out-fate (reads events ∷ uses) =
      live_out-reads uses events (fate_of_read events) (ssl_receive_loop-Reads events [])
        (live_out-fate uses)
  live_out-fate (closes ∷ uses) = live_out-closed uses
