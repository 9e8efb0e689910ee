-- ===== src/Tls/Session.antt =====
-- A server's session from its constructor to its destructor.
use asabru_engine.Common.{ℕ, ◌≡◌}
use asabru_engine.Common.{true, none}
use asabru_engine.Tls.{Pointer, TlsAnswers, SslSocket}

abbrev pub object : ℕ → Pointer → Pointer → SslSocket
object fd ctx ssl = record { s = fd; ctx = ctx; ssl = ssl; verify_peer = none }

-- The context of a server is made, and its files are named and can be used.
abbrev pub Configures : TlsAnswers → Type 0
Configures answers =
    (answers.new_context ≡ true)
    × (answers.cert_file_path ≡ true)
    × (answers.key_file_path ≡ true)
    × (answers.use_certificate ≡ true)
    × (answers.use_private_key ≡ true)
