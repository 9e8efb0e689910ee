-- ===== src/Client/Closing.antt =====
-- ~CClientSocket of src/socket/CClientSocket.h and ~Socket of src/socket/Socket.cpp close the same
-- descriptor one after the other. Between the two, other threads of the engine may be given that number:
-- the kernel gives out the lowest one that is free.
use asabru_engine.Common.{ℕ, suc, ◌+◌, ◌≤◌, ◌<◌, ◌≡◌, ◌↔◌, ◌==◌, if◌then◌else◌, arith}
use asabru_engine.Common.{none, some}
use native.Mathlib.Decide.{dec_lt}
use asabru_engine.Net.Descriptors.{
  Table, change, close_at, IsLowest, free_below, free_below-above, free_below-change, lowest-below,
  lowest-here,
}
use asabru_engine.Client.{CClientSocket}

-- ~CClientSocket
unfoldable pub close_own : CClientSocket → Table → Table
close_own c t = close_at c.s t

-- ~Socket, where the reference counter says how many objects share the descriptor.
unfoldable pub close_base : ℕ → CClientSocket → Table → Table
close_base ref_counter c t = if ref_counter == 1 then close_at c.s t else t

-- Other threads open files, `n` in all.
pub data Opened (t : Table) : ℕ → Table → Type 0 where
  nothing : Opened t 0 t
  opens :
      {n : ℕ} {t' : Table} (fd f : ℕ)
      → Opened t n t'
      → IsLowest t' fd
      → Opened t (suc n) (change fd (some f) t')

-- While numbers below `s` are free those are given out, and then `s` itself, which stays in use.
Opened-reuse :
    {t : Table} (s : ℕ) {n : ℕ} {t' : Table}
    → Opened t n t'
    → t s ≡ none
    → (n ≤ free_below s t → (t' s ≡ none) × (free_below s t' + n ≡ free_below s t))
      × (free_below s t < n → (f : ℕ) × (t' s ≡ some f))
Opened-reuse s nothing free = (λ h. (free, omega arith), λ h. absurd (omega (arith, h)))
Opened-reuse {t = t} s (opens {n = n} {t' = t'} fd f o low) free =
    let (early, late) = Opened-reuse s o free in
    (
      λ h.
          let (still, left_free) = early (omega (arith, h)) in
          let below = lowest-below s fd t' low (omega (arith, h, left_free)) in
          (
            ground (arith, still, below),
            omega (arith, left_free, free_below-change s fd f t' low.unused below),
          ),
      λ h. elim (dec_lt (free_below s t) n) [
        | yes gone ↦ let (g, used) = late gone in (g, ground (arith, used, low.unused))
        | no last ↦
            let (still, left_free) = early (omega (arith, last)) in
            let here = lowest-here s fd t' low still (omega (arith, left_free, last, h)) in
            (f, ground (arith, here))
      ],
    )

-- A client socket with the descriptor `s` and no copies is destroyed, and between ~CClientSocket and ~Socket
-- other threads open `n` files, the kernel giving each the lowest free number. If at most as many as there
-- were numbers free below `s`, ~Socket changes nothing; with one more or beyond, it closes a file that
-- another thread has opened there, whatever they are.
pub destroy_client_socket-reuse :
    (c : CClientSocket) (s : ℕ)
    → c.s ≡ some s
    → (t : Table) {n : ℕ} {t' : Table} → Opened (close_own c t) n t'
    → ((n ≤ free_below s t) ↔ ((i : ℕ) → close_base 1 c t' i ≡ t' i))
      × ((free_below s t < n) ↔ ((f : ℕ) × (t' s ≡ some f) × (close_base 1 c t' s ≡ none)))
unfolding close_own close_base
destroy_client_socket-reuse c s e t {n = n} {t' = t'} o =
    let free : close_at c.s t s ≡ none = rw e (ground arith) in
    let same : free_below s (close_at c.s t) ≡ free_below s t =
      rw e (free_below-above s s none t (omega arith)) in
    let (early, late) = Opened-reuse s o free in
    (
      (
        λ h i. rw e (ground (arith, (early (omega (arith, h, same))).0)),
        λ unchanged. elim (dec_lt (free_below s t) n) [
          | yes more ↦
              let (f, used) = late (omega (arith, more, same)) in
              let kept : close_at (some s) t' s ≡ t' s = rw e at (unchanged s) in
              absurd (ground (arith, used, kept))
          | no few ↦ omega (arith, few)
        ],
      ),
      (
        λ h. let (f, used) = late (omega (arith, h, same)) in (f, used, rw e (ground arith)),
        λ (f, used, _). elim (dec_lt (free_below s t) n) [
          | yes more ↦ more
          | no few ↦ absurd (ground (arith, used, (early (omega (arith, few, same))).0))
        ],
      ),
    )
