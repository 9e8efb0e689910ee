-- ===== src/Wire/Reference/Texts.antt =====
-- Reads in sequence, and ReadString, against the reference.
use asabru_engine.Common.{ℕ, ◌≤◌, ltb, leb, if◌then◌else◌, ◌≡◌, refl, ap, ◌∙◌, sym, arith, All}
use asabru_engine.Common.{
  Bool, true, false, List, [], ◌∷◌, ◌++◌, append_assoc, append-nil, ok, Checked, length, take, drop,
  take-append-drop, length-take, Bool-cases, inl, inr,
}
use mathlib.Core.Path.{subst}
use asabru_engine.Wire.Packets.{IsByte, Text}
use asabru_engine.Wire.Reader.{
  ClickReadProtoBuffer, Reads, read_varint64, read_string, read_all, read_buffer, pure,
  ◌>>=◌ as read_then,
}
use asabru_engine.Wire.Reader.At.{reader, not_empty, read_buffer-reader, read_buffer-fault}
use asabru_engine.Wire.Reference.{
  Parsed, parsed, overrun, Parser, and_then, number, text_of, text, Agrees,
}
use asabru_engine.Wire.Reference.Numbers.{read_varint64-number}

All-suffix : (used rest : List ℕ) → All IsByte (used ++ rest) → All IsByte rest
All-suffix [] rest h = h
All-suffix (b ∷ used) rest h = All-suffix used rest h.1

further :
    {B : Type 0} (pre used rest : List ℕ) {post : List ℕ} {m n : Checked (B × ClickReadProtoBuffer)}
    (q : Parsed B)
    → post ≡ used ++ rest
    → m ≡ n
    → Agrees (pre ++ used) rest n q
    → Agrees pre post m q
further pre used rest overrun split e h = e ∙ h
further pre used rest (parsed b rest') split e (used', split', outcome) = (
  used ++ used',
  split ∙ (ap (λ r. used ++ r) split' ∙ sym (append_assoc used used' rest')),
  e ∙ (outcome ∙ rw (append_assoc pre used used')),
)

pub bound :
    {A B : Type 0} (m : Reads A) (f : A → Reads B) (g : A → Parser B) (pre post : List ℕ)
    (q : Parsed A)
    → All IsByte post
    → Agrees pre post (m (reader pre post)) q
    → ((a : A) (pre' rest : List ℕ)
        → All IsByte rest
        → Agrees pre' rest (f a (reader pre' rest)) (g a rest))
    → Agrees pre post (read_then m f (reader pre post)) (and_then g q)
bound m f g pre post overrun bytes e later = rw (e, read_then)
bound m f g pre post (parsed a rest) bytes (used, split, e) later =
    further pre used rest (g a rest) split (rw (e, read_then))
      (later a (pre ++ used) rest (All-suffix used rest (subst (All IsByte) split bytes)))

read_buffer_fits :
    (pre rest : List ℕ) (len : ℕ)
    → len ≤ length rest
    → read_buffer len (reader pre rest)
      ≡ ok (
        (take len rest, not_empty (drop len rest)),
        reader (pre ++ take len rest) (drop len rest),
      )
read_buffer_fits pre rest len fits =
    rw (taken, take-append-drop len rest) at
      (read_buffer-reader pre (take len rest) (drop len rest))
  where
    taken : length (take len rest) ≡ len
    taken = omega (arith, length-take {0} len rest, fits)

text_of-Agrees :
    (old : Text) (a : ℕ × Bool) (pre rest : List ℕ)
    → Agrees pre rest
        ((if a.1
            then (if ltb 0x00ff_ffff a.0 then pure (old, false) else read_all a.0)
            else pure (old, false))
          (reader pre rest))
        (text_of old a rest)
unfolding text_of read_all
text_of-Agrees old (len, false) pre rest = ([], refl, rw (append-nil pre))
text_of-Agrees old (len, true) pre rest = elim (Bool-cases (ltb 0x00ff_ffff len)) [
  | inl long ↦ rw long ([], refl, rw (append-nil pre))
  | inr short ↦ elim (Bool-cases (leb len (length rest))) [
    | inl fits ↦
        rw (short, fits)
          (
            take len rest,
            sym (take-append-drop len rest),
            read_buffer_fits pre rest len (ground arith),
          )
    | inr over ↦ rw (short, over) (read_buffer-fault pre rest len (ground arith))
  ]
]

-- On any bytes, ReadString gives the text of the reference, with the same result, and takes the same
-- bytes; it reads outside the buffer exactly where the reference lacks input.
pub read_string-text :
    (old : Text) (pre post : List ℕ)
    → All IsByte post
    → Agrees pre post (read_string old (reader pre post)) (text old post)
unfolding read_string text
read_string-text old pre post bytes =
    bound read_varint64 _ (text_of old) pre post (number post) bytes
      (read_varint64-number pre post bytes) (λ a pre' rest bytes'. text_of-Agrees old a pre' rest)
