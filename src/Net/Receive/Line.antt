-- ===== src/Net/Receive/Line.antt =====
-- What ReceiveLine returns.
use asabru_engine.Common.{ℕ, ◌≡◌, ◌≢◌, refl, ◌∙◌, ◌==◌, false, append_assoc, append-nil}
use asabru_engine.Common.{some, List, [], ◌∷◌, ◌++◌, All, arith}
use asabru_engine.Net.Receive.{Recv, bytes, failed, line_loop, receive_line, send_line}

-- The kernel hands over one byte for each `recv`.
abbrev pub byte_by_byte : List ℕ → List Recv → List Recv
byte_by_byte [] later = later
byte_by_byte (b ∷ bs) later = bytes (b ∷ []) ∷ byte_by_byte bs later

abbrev pub IsNotNewline : ℕ → Type 0
IsNotNewline b = b ≢ 10

line_loop-bytes :
    (line ret : List ℕ) (later : List Recv)
    → All IsNotNewline line
    → line_loop (byte_by_byte line later) ret ≡ line_loop later (ret ++ line)
unfolding line_loop
line_loop-bytes [] ret later h = rw (append-nil ret)
line_loop-bytes (b ∷ line) ret later (h, hs) =
    rw (other, line_loop)
      (line_loop-bytes line (ret ++ (b ∷ [])) later hs ∙ rw (append_assoc ret (b ∷ []) line))
  where
    other : (b == 10) ≡ false
    other = ground arith

-- ReceiveLine returns the line that SendLine sent, newline included, and leaves what follows; a line
-- that the peer's close cuts off is returned as far as it came, and any error loses it whole.
pub receive_line-send_line :
    (line : List ℕ) (later : List Recv)
    → All IsNotNewline line
    → (receive_line (byte_by_byte (send_line line) later) ≡ some (send_line line, later))
      × (receive_line (byte_by_byte line (bytes [] ∷ later)) ≡ some (line, later))
      × (receive_line (byte_by_byte line (failed ∷ later)) ≡ some ([], later))
unfolding receive_line send_line line_loop
receive_line-send_line line later h = (
  rw (split line) (line_loop-bytes line [] _ h),
  line_loop-bytes line [] (bytes [] ∷ later) h,
  line_loop-bytes line [] (failed ∷ later) h,
)
  where
    split :
        (bs : List ℕ)
        → byte_by_byte (bs ++ (10 ∷ [])) later ≡ byte_by_byte bs (bytes (10 ∷ []) ∷ later)
    split [] = refl
    split (b ∷ bs) = rw (split bs)
