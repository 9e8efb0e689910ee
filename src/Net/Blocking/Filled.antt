-- ===== src/Net/Blocking/Filled.antt =====
-- What RecvBlocking returns.
use asabru_engine.Common.{ℕ, ◌+◌, ◌-◌, ◌%◌, ◌^◌, ◌≤◌, ◌<◌, ◌==◌, ◌≡◌, refl, ap, ◌∙◌, arith}
use asabru_engine.Common.{
  true, false, List, [], ◌∷◌, ◌++◌, append_assoc, append-nil, length, length-append, All,
}
use asabru_engine.Net.Receive.{Recv, bytes, failed}
use asabru_engine.Net.Receive.Bytes.{joined, take_all}
use asabru_engine.Net.Blocking.{filled, step_back, fill_loop, recv_blocking}

-- The answers of a kernel that hands over the pieces one after the other.
abbrev pub answers : List (List ℕ) → List Recv
answers [] = []
answers (piece ∷ pieces) = bytes piece ∷ answers pieces

abbrev pub IsFull : List ℕ → Type 0
IsFull piece = 1 ≤ length piece

fill_loop-answers :
    (pieces : List (List ℕ)) (piece : List ℕ) (len remaining : ℕ) (buffer : List ℕ)
    (later : List Recv)
    → All IsFull (piece ∷ pieces)
    → length (joined (piece ∷ pieces)) ≡ remaining
    → fill_loop (answers (piece ∷ pieces) ++ later) len remaining 0 buffer
      ≡ filled len (buffer ++ joined (piece ∷ pieces)) later
unfolding fill_loop
fill_loop-answers pieces [] len remaining buffer later full size = absurd (omega (arith, full.0))
fill_loop-answers [] (b ∷ bs) len remaining buffer later full size =
    rw (take_all (b ∷ bs) remaining fits, fill_loop) (rw (all_there, append-nil (b ∷ bs)))
  where
    fits : length (b ∷ bs) ≤ remaining
    fits = omega (arith, size, length-append (b ∷ bs) [])

    all_there : (remaining - length (b ∷ bs) == 0) ≡ true
    all_there = ground (arith, size, length-append (b ∷ bs) [])
fill_loop-answers (next ∷ pieces) (b ∷ bs) len remaining buffer later full size =
    rw (take_all (b ∷ bs) remaining fits, fill_loop)
      (rw more (
        fill_loop-answers pieces next len (remaining - length (b ∷ bs)) (buffer ++ (b ∷ bs)) later
          full.1 rest
        ∙ rw (append_assoc buffer (b ∷ bs) (joined (next ∷ pieces)))))
  where
    fits : length (b ∷ bs) ≤ remaining
    fits = omega (arith, size, length-append (b ∷ bs) (joined (next ∷ pieces)))

    rest : length (joined (next ∷ pieces)) ≡ remaining - length (b ∷ bs)
    rest = omega (arith, size, length-append (b ∷ bs) (joined (next ∷ pieces)))

    more : (remaining - length (b ∷ bs) == 0) ≡ false
    more = ground (
      arith,
      size,
      full.1.0,
      length-append (b ∷ bs) (joined (next ∷ pieces)),
      length-append next (joined pieces),
    )

-- RecvBlocking of fewer than 2 ^ 31 bytes returns the length that was asked for, with exactly the bytes of
-- that many, once the kernel has handed them over in non-empty pieces and no call has failed; what comes
-- later is unread.
pub recv_blocking-answers :
    (piece : List ℕ) (pieces : List (List ℕ)) (later : List Recv)
    → All IsFull (piece ∷ pieces)
    → length (joined (piece ∷ pieces)) < 2 ^ 31
    → recv_blocking (answers (piece ∷ pieces) ++ later) (length (joined (piece ∷ pieces)))
      ≡ filled (length (joined (piece ∷ pieces))) (joined (piece ∷ pieces)) later
unfolding recv_blocking
recv_blocking-answers piece pieces later full fits =
    let len = length (joined (piece ∷ pieces)) in
    let same : len % 2 ^ 32 ≡ len = omega (arith, fits) in
    fill_loop-answers pieces piece (len % 2 ^ 32) len [] later full refl
    ∙ ap (λ n. filled n (joined (piece ∷ pieces)) later) same

step_back-last : (front : List ℕ) (b : ℕ) → step_back 0 (front ++ (b ∷ [])) ≡ (0, front)
unfolding step_back
step_back-last [] b = refl
step_back-last (x ∷ []) b = refl
step_back-last (x ∷ y ∷ front) b = rw (step_back-last (y ∷ front) b)

-- One `recv` that is not enough.
fill_loop-some :
    (y : ℕ) (ys : List ℕ) (len remaining : ℕ) (rs : List Recv)
    → length (y ∷ ys) < remaining
    → fill_loop (bytes (y ∷ ys) ∷ rs) len remaining 0 []
      ≡ fill_loop rs len (remaining - length (y ∷ ys)) 0 (y ∷ ys)
unfolding fill_loop
fill_loop-some y ys len remaining rs h =
    rw (take_all (y ∷ ys) remaining (omega arith), fill_loop) (rw more)
  where
    more : (remaining - length (y ∷ ys) == 0) ≡ false
    more = ground arith

fill_loop-piece :
    (front : List ℕ) (b len remaining : ℕ) (rs : List Recv)
    → length front + 1 < remaining
    → fill_loop (bytes (front ++ (b ∷ [])) ∷ rs) len remaining 0 []
      ≡ fill_loop rs len (remaining - (length front + 1)) 0 (front ++ (b ∷ []))
fill_loop-piece [] b len remaining rs h = fill_loop-some b [] len remaining rs (omega arith)
fill_loop-piece (x ∷ front) b len remaining rs h =
    rw (← size) (fill_loop-some x (front ++ (b ∷ [])) len remaining rs (omega (arith, size)))
  where
    size : length (x ∷ (front ++ (b ∷ []))) ≡ length (x ∷ front) + 1
    size = omega (arith, length-append front (b ∷ []))

fill_loop-failed :
    (front : List ℕ) (b len remaining : ℕ) (rs : List Recv)
    → fill_loop (failed ∷ rs) len remaining 0 (front ++ (b ∷ []))
      ≡ fill_loop rs len ((remaining + 1) % 2 ^ 64) 0 front
unfolding fill_loop
fill_loop-failed front b len remaining rs = rw (step_back-last front b, fill_loop)

-- A `recv` that fails in the middle is not reported: the byte before it is overwritten by the next one,
-- and RecvBlocking still returns the length that was asked for, as an `int`, from one byte more than that.
pub recv_blocking-lost_byte :
    (front : List ℕ) (b : ℕ) (piece : List ℕ) (pieces : List (List ℕ)) (later : List Recv)
    → All IsFull (piece ∷ pieces)
    → 1 < length (joined (piece ∷ pieces))
    → length front + length (joined (piece ∷ pieces)) < 2 ^ 64
    → recv_blocking
        (bytes (front ++ (b ∷ [])) ∷ failed ∷ (answers (piece ∷ pieces) ++ later))
        (length front + length (joined (piece ∷ pieces)))
      ≡ filled
          ((length front + length (joined (piece ∷ pieces))) % 2 ^ 32)
          (front ++ joined (piece ∷ pieces))
          later
unfolding recv_blocking
recv_blocking-lost_byte front b piece pieces later full two fits =
    fill_loop-piece front b (len % 2 ^ 32) len (failed ∷ rest) (omega (arith, two))
    ∙ (after_failure
        ∙ fill_loop-answers pieces piece (len % 2 ^ 32) (length (joined (piece ∷ pieces))) front
            later full refl)
  where
    len : ℕ
    len = length front + length (joined (piece ∷ pieces))

    rest : List Recv
    rest = answers (piece ∷ pieces) ++ later

    wraps : (len - (length front + 1) + 1) % 2 ^ 64 ≡ length (joined (piece ∷ pieces))
    wraps = omega (arith, two, fits)

    after_failure :
        fill_loop (failed ∷ rest) (len % 2 ^ 32) (len - (length front + 1)) 0 (front ++ (b ∷ []))
        ≡ fill_loop rest (len % 2 ^ 32) (length (joined (piece ∷ pieces))) 0 front
    after_failure =
        fill_loop-failed front b (len % 2 ^ 32) (len - (length front + 1)) rest
        ∙ ap (λ n. fill_loop rest (len % 2 ^ 32) n 0 front) wraps
