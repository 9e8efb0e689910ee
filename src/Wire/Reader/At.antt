-- ===== src/Wire/Reader/At.antt =====
-- The read buffer as what was read and what is left, and each primitive read in those terms.
use asabru_engine.Common.{ℕ, ◌+◌, ◌<◌, ◌≡◌, sym, ltb, leb}
use asabru_engine.Common.{Bool, true, false, List, [], ◌∷◌, ◌++◌, append_assoc, arith}
use asabru_engine.Common.{length, length-append, get_elem?-append_length}
use asabru_engine.Common.{get_elem?-length, drop-append_length, take-append_length, append-nil}
use asabru_engine.Common.{ok, fault, lt→leb_false, le→leb, take-length}
use asabru_engine.Wire.Reader.{ClickReadProtoBuffer, new_reader, read_byte, read_buffer}

-- The buffer that holds `pre ++ post`, with `pre` read already.
abbrev pub reader : List ℕ → List ℕ → ClickReadProtoBuffer
reader pre post = record {
  m_buffer = pre ++ post;
  m_index = length pre;
  m_len = length (pre ++ post);
}

abbrev pub not_empty {ℓ} : {A : Type ℓ} → List A → Bool
not_empty [] = false
not_empty (x ∷ xs) = true

pub new_reader-reader : (bytes : List ℕ) → new_reader bytes (length bytes) ≡ ok (reader [] bytes)
unfolding new_reader
new_reader-reader bytes = rw (le→leb (length bytes) (length bytes) (omega arith), take-length bytes)

-- Reading moves the boundary.
pub reader-append :
    (pre used post : List ℕ)
    → ◌≡◌ {A = ClickReadProtoBuffer}
        (record {
          m_buffer = pre ++ (used ++ post);
          m_index = length pre + length used;
          m_len = length (pre ++ (used ++ post));
        })
        (reader (pre ++ used) post)
reader-append pre used post = rw (sym (append_assoc pre used post), sym (length-append pre used))

tail_left :
    (pre used post : List ℕ)
    → ltb (length pre + length used) (length (pre ++ (used ++ post))) ≡ not_empty post
tail_left pre used [] = ground (arith, length-append pre (used ++ []), length-append {0} used [])
tail_left pre used (x ∷ post) =
    ground (arith, length-append pre (used ++ (x ∷ post)), length-append {0} used (x ∷ post))

pub read_byte-reader :
    (pre : List ℕ) (b : ℕ) (post : List ℕ)
    → read_byte (reader pre (b ∷ post)) ≡ ok ((b, not_empty post), reader (pre ++ (b ∷ [])) post)
unfolding read_byte
read_byte-reader pre b post =
    rw (get_elem?-append_length pre b post, read_byte)
      (rw (tail_left pre (b ∷ []) post, reader-append pre (b ∷ []) post))

pub read_byte-end : (pre : List ℕ) → read_byte (reader pre []) ≡ fault
unfolding read_byte
read_byte-end pre = rw (append-nil pre, get_elem?-length pre, read_byte)

pub read_buffer-reader :
    (pre used post : List ℕ)
    → read_buffer (length used) (reader pre (used ++ post))
      ≡ ok ((used, not_empty post), reader (pre ++ used) post)
unfolding read_buffer
read_buffer-reader pre used post = rw (
  fits,
  drop-append_length pre (used ++ post),
  take-append_length used post,
  tail_left pre used post,
  reader-append pre used post,
)
  where
    fits : leb (length pre + length used) (length (pre ++ (used ++ post))) ≡ true
    fits = le→leb _ _ (omega (arith, length-append pre (used ++ post), length-append used post))

pub read_buffer-fault :
    (pre post : List ℕ) (size : ℕ) → length post < size → read_buffer size (reader pre post) ≡ fault
unfolding read_buffer
read_buffer-fault pre post size h = rw (
    lt→leb_false (length pre + size) (length (pre ++ post)) (omega (arith, length-append pre post)))
