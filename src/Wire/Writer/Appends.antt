-- ===== src/Wire/Writer/Appends.antt =====
-- The write buffer as what was written and what is free, and each write as an append.
use asabru_engine.Common.{ℕ, zero, suc, ◌+◌, ◌%◌, ◌^◌, ◌≤◌, ◌<◌, ◌≡◌, sym, ◌∙◌}
use asabru_engine.Common.{List, [], ◌∷◌, ◌++◌, append_assoc, append-nil, arith, ◌>>=◌}
use asabru_engine.Common.{length, length-append, length-drop, drop, take-append_length}
use asabru_engine.Common.{leb, if◌then◌else◌, take-length, le→leb, lt→ltb, lt→leb_false, ok, fault}
use mathlib.Core.Path.{subst}
use native.Mathlib.Decide.{dec_lt}
use asabru_engine.Wire.Writer.{
  ClickWriteProtoBuffer, Writes, ◌then_write◌, nothing_written, new_writer, get_buffer, write_all,
  varint_bytes, write_varint64, write_string, write_uint64, string_bytes,
}
use asabru_engine.Wire.Varint.{length-varint_bytes}

-- The array of a buffer of `size` bytes that holds `done ++ free`, with `done` written.
abbrev pub writer : ℕ → List ℕ → List ℕ → ClickWriteProtoBuffer
writer size done free = record { m_buffer = done ++ free; m_index = length done; m_len = size }

-- A write that puts `s` behind what is written, over the first free bytes, where it fits, and that
-- writes outside the array where it does not.
pub record Appends (s : List ℕ) (f : Writes) : Type 0 where
  pub appended :
      (size : ℕ) (done free : List ℕ)
      → length s ≤ length free
      → f (writer size done free) ≡ ok (writer size (done ++ s) (drop (length s) free))
  pub overrun :
      (size : ℕ) (done free : List ℕ) → length free < length s → f (writer size done free) ≡ fault

drop-append : (done free : List ℕ) (n : ℕ) → drop (length done + n) (done ++ free) ≡ drop n free
drop-append [] free n = rw (let e : 0 + n ≡ n = omega arith in e)
drop-append (x ∷ done) free n = rw (later (length done)) (drop-append done free n)
  where
    later : (k : ℕ) → suc k + n ≡ suc (k + n)
    later k = omega arith

pub write_all-Appends : (s : List ℕ) → length s < 2 ^ 31 → Appends s (write_all s (length s))
unfolding write_all
write_all-Appends s short = record {
  appended = λ size done free room.
      rw
        (
          narrow,
          lt→ltb (length s) (2 ^ 31) short,
          le→leb (length s) (length s) (omega arith),
          le→leb (length done + length s) (length (done ++ free))
              (omega (arith, length-append done free)),
          take-append_length done free,
          take-length s,
          drop-append done free (length s),
        )
        (rw (sym (append_assoc done s (drop (length s) free)), sym (length-append done s)));
  overrun = λ size done free full. rw (
    narrow,
    lt→ltb (length s) (2 ^ 31) short,
    le→leb (length s) (length s) (omega arith),
    lt→leb_false (length done + length s) (length (done ++ free))
        (omega (arith, length-append done free)),
  );
}
  where
    narrow : length s % 2 ^ 32 ≡ length s
    narrow = omega arith

drop-drop : (m n : ℕ) (xs : List ℕ) → drop n (drop m xs) ≡ drop (m + n) xs
drop-drop zero n xs = rw (let e : 0 + n ≡ n = omega arith in e)
drop-drop (suc m) zero [] = rw (let e : suc m + 0 ≡ suc m = omega arith in e)
drop-drop (suc m) (suc n) [] = rw (let e : suc m + suc n ≡ suc (m + suc n) = omega arith in e)
drop-drop (suc m) n (x ∷ xs) =
    rw (let e : suc m + n ≡ suc (m + n) = omega arith in e) (drop-drop m n xs)

pub then_write-Appends :
    {s t : List ℕ} {f g : Writes} → Appends s f → Appends t g → Appends (s ++ t) (f then_write g)
then_write-Appends {s} {t} hf hg = record {
  appended = λ size done free room.
      rw (hf.appended size done free (omega (arith, length-append s t)), ◌>>=◌)
        (hg.appended size (done ++ s) (drop (length s) free)
            (omega (arith, length-append s t, length-drop (length s) free))
          ∙ rw (
            append_assoc done s t,
            drop-drop (length s) (length t) free,
            sym (length-append s t),
          ));
  overrun = λ size done free full. elim (dec_lt (length free) (length s)) [
    | yes p ↦ rw (hf.overrun size done free p, ◌>>=◌)
    | no p ↦
        rw (hf.appended size done free (omega arith), ◌>>=◌)
          (hg.overrun size (done ++ s) (drop (length s) free)
            (omega (arith, length-append s t, length-drop (length s) free)))
  ];
}

pub Appends-regroup : {s t : List ℕ} {f : Writes} → s ≡ t → Appends s f → Appends t f
Appends-regroup {f = f} e h = subst (λ bytes. Appends bytes f) e h

pub write_varint64-Appends : (v : ℕ) → Appends (varint_bytes 10 v) (write_varint64 v)
unfolding write_varint64
write_varint64-Appends v =
    write_all-Appends (varint_bytes 10 v) (omega (arith, length-varint_bytes 9 v))

pub write_string-Appends :
    (s : List ℕ) → length s < 2 ^ 31 → Appends (string_bytes s) (write_string s)
unfolding write_string string_bytes
write_string-Appends s short =
    then_write-Appends (write_varint64-Appends (length s)) (write_all-Appends s short)

-- An append, on every buffer.
pub Appends-writer :
    {s : List ℕ} {f : Writes} (h : Appends s f) (size : ℕ) (done free : List ℕ)
    → f (writer size done free) ≡ (
        if leb (length s) (length free)
        then ok (writer size (done ++ s) (drop (length s) free))
        else fault)
Appends-writer {s} h size done free = elim (dec_lt (length free) (length s)) [
  | yes p ↦ rw (lt→leb_false (length s) (length free) p) (h.overrun size done free p)
  | no p ↦
      rw (le→leb (length s) (length free) (omega arith)) (h.appended size done free (omega arith))
]

-- On a buffer with `done` written and `free` left, WriteString of a text shorter than 2^31 puts the
-- text's length and its bytes behind `done` where they fit into what is free, and writes outside the
-- array where they do not.
pub write_string-writer :
    (s : List ℕ) (size : ℕ) (done free : List ℕ)
    → length s < 2 ^ 31
    → write_string s (writer size done free) ≡ (
        if leb (length (string_bytes s)) (length free)
        then ok (writer size (done ++ string_bytes s) (drop (length (string_bytes s)) free))
        else fault)
write_string-writer s size done free short =
    Appends-writer (write_string-Appends s short) size done free

pub write_uint64-Appends : (v : ℕ) → Appends (varint_bytes 10 v) (write_uint64 v)
unfolding write_uint64
write_uint64-Appends v = write_varint64-Appends v

pub nothing_written-Appends : Appends [] nothing_written
nothing_written-Appends = record {
  appended = λ size done free room. rw (append-nil done);
  overrun = λ size done free full. absurd (omega arith);
}

-- GetBuffer hands back what was written, if the caller's array is long enough.
pub get_buffer-writer :
    (room size : ℕ) (done free : List ℕ)
    → length done ≤ room
    → get_buffer room (writer size done free) ≡ ok (done, length done)
unfolding get_buffer
get_buffer-writer room size done free h = rw (
  le→leb (length done) room h,
  le→leb (length done) (length (done ++ free)) (omega (arith, length-append done free)),
  take-append_length done free,
)

pub get_buffer-overrun :
    (room size : ℕ) (done free : List ℕ)
    → room < length done
    → get_buffer room (writer size done free) ≡ fault
unfolding get_buffer
get_buffer-overrun room size done free h = rw (lt→leb_false (length done) room h)

pub new_writer-writer :
    (bytes : List ℕ) → new_writer bytes (length bytes) ≡ ok (writer (length bytes) [] bytes)
unfolding new_writer
new_writer-writer bytes = rw (le→leb (length bytes) (length bytes) (omega arith), take-length bytes)
