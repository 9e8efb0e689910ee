-- ===== src/Wire/Lifetime.antt =====
-- CProtocolPacketDecoder and CProtocolPacketEncoder of src/decoder/ClickHouse_Wire.cpp as objects on the
-- heap: each owns a buffer object by its `m_buffer`, and that owns an array by its own. What the arrays
-- hold is Wire.Reader's and Wire.Writer's affair; here an allocation is an address with its kind. `delete`
-- of what `new[]` gave is undefined behaviour, as is `delete` of what is not allocated.
use asabru_engine.Common.{ℕ, ◌+◌, ◌<◌, ◌==◌, ◌≡◌, if◌then◌else◌, arith}
use asabru_engine.Common.{Option, none, some, List, [], ◌∷◌, ◌++◌, All, Checked, ok, fault, ◌>>=◌}

pub data Kind : Type 0 where
  object_block array_block : Kind

pub record Heap : Type 0 where
  pub next : ℕ
  pub allocated : ℕ → Option Kind

abbrev mark : ℕ → Option Kind → (ℕ → Option Kind) → ℕ → Option Kind
mark p v f a = if p == a then v else f a

-- `new` and `new[]` give an address that was never used.
abbrev pub allocate : Kind → Heap → ℕ × Heap
allocate kind h =
    (h.next, record { next = h.next + 1; allocated = mark h.next (some kind) h.allocated })

-- `delete`
unfoldable pub release : ℕ → Heap → Checked Heap
release p h = elim (h.allocated p) [
  | none ↦ fault
  | some kind ↦ elim kind [
    | array_block ↦ fault
    | object_block ↦ ok (record h { allocated = mark p none h.allocated })
  ]
]

-- A decoder or an encoder, by the addresses of its buffer object and of the array of that.
pub data PacketObject : Type 0 where
  decoder encoder : ℕ → ℕ → PacketObject

-- `new ClickReadProtoBuffer(buffer, len)`: the object, and the array in its constructor.
unfoldable pub construct_decoder : Heap → PacketObject × Heap
construct_decoder h =
    let (object, h') = allocate object_block h in
    let (array, h'') = allocate array_block h' in (decoder object array, h'')

unfoldable pub construct_encoder : Heap → PacketObject × Heap
construct_encoder h =
    let (object, h') = allocate object_block h in
    let (array, h'') = allocate array_block h' in (encoder object array, h'')

-- ~ClickReadProtoBuffer and ~ClickWriteProtoBuffer: `delete m_buffer`, where the constructor has `new char[]`.
unfoldable pub destroy_read_buffer : ℕ → Heap → Checked Heap
unfolding release
destroy_read_buffer array h = release array h

unfoldable pub destroy_write_buffer : ℕ → Heap → Checked Heap
unfolding release
destroy_write_buffer array h = release array h

-- `delete m_buffer`: the destructor of the buffer, and then its own place.
unfoldable pub destroy_decoder : ℕ → ℕ → Heap → Checked Heap
unfolding destroy_read_buffer release
destroy_decoder object array h = destroy_read_buffer array h >>= λ h'. release object h'

unfoldable pub destroy_encoder : ℕ → ℕ → Heap → Checked Heap
unfolding destroy_write_buffer release
destroy_encoder object array h = destroy_write_buffer array h >>= λ h'. release object h'

unfoldable pub destroy_packet_object : PacketObject → Heap → Checked Heap
unfolding destroy_decoder destroy_encoder
destroy_packet_object (decoder object array) h = destroy_decoder object array h
destroy_packet_object (encoder object array) h = destroy_encoder object array h

-- The heap with the decoders and encoders that live.
pub record Packets : Type 0 where
  pub heap : Heap
  pub living : List PacketObject

pub data Uses (w : Packets) : Packets → Type 0 where
  decodes : Uses w (record {
    heap = (construct_decoder w.heap).1;
    living = (construct_decoder w.heap).0 ∷ w.living;
  })
  encodes : Uses w (record {
    heap = (construct_encoder w.heap).1;
    living = (construct_encoder w.heap).0 ∷ w.living;
  })
  destroys :
      (before after : List PacketObject) (o : PacketObject) (h : Heap)
      → w.living ≡ before ++ (o ∷ after)
      → destroy_packet_object o w.heap ≡ ok h
      → Uses w (record { heap = h; living = before ++ after })

pub data Reach (w : Packets) : Packets → Type 0 where
  here : Reach w w
  next : {w' w'' : Packets} → Reach w w' → Uses w' w'' → Reach w w''

abbrev array_of : PacketObject → ℕ
array_of (decoder object array) = array
array_of (encoder object array) = array

-- The array of an object that lives is still allocated, and as an array.
abbrev IsHeld : Heap → PacketObject → Type 0
IsHeld h o = (h.allocated (array_of o) ≡ some array_block) × (array_of o < h.next)

allocate-IsHeld :
    (h : Heap) (os : List PacketObject)
    → All (IsHeld h) os
    → All (IsHeld (allocate array_block (allocate object_block h).1).1) os
allocate-IsHeld h [] held = tt
allocate-IsHeld h (o ∷ os) ((there, old), held) =
    ((ground (arith, there), omega (arith, old)), allocate-IsHeld h os held)

IsHeld-middle :
    (h : Heap) (before after : List PacketObject) (o : PacketObject)
    → All (IsHeld h) (before ++ (o ∷ after))
    → IsHeld h o
IsHeld-middle h [] after o held = held.0
IsHeld-middle h (p ∷ before) after o held = IsHeld-middle h before after o held.1

-- The destructor of the buffer is met first.
IsHeld-faults : (h : Heap) (o : PacketObject) → IsHeld h o → destroy_packet_object o h ≡ fault
unfolding destroy_packet_object
IsHeld-faults h (decoder object array) (there, old) = ground (arith, there)
IsHeld-faults h (encoder object array) (there, old) = ground (arith, there)

living-IsHeld :
    (w : Packets) (before after : List PacketObject) (o : PacketObject)
    → All (IsHeld w.heap) w.living
    → w.living ≡ before ++ (o ∷ after)
    → IsHeld w.heap o
living-IsHeld w before after o held e = IsHeld-middle w.heap before after o (rw e at held)

Uses-IsHeld :
    {w w' : Packets} → Uses w w' → All (IsHeld w.heap) w.living → All (IsHeld w'.heap) w'.living
unfolding construct_decoder construct_encoder
Uses-IsHeld {w = w} decodes held =
    ((ground arith, omega arith), allocate-IsHeld w.heap w.living held)
Uses-IsHeld {w = w} encodes held =
    ((ground arith, omega arith), allocate-IsHeld w.heap w.living held)
Uses-IsHeld {w = w} (destroys before after o h e gone) held =
    let bad = IsHeld-faults w.heap o (living-IsHeld w before after o held e) in
    absurd (cc (bad, gone))

abbrev pub no_packets : Packets
no_packets = record { heap = record { next = 0; allocated = λ a. none }; living = [] }

Reach-IsHeld : {w : Packets} → Reach no_packets w → All (IsHeld w.heap) w.living
Reach-IsHeld here = tt
Reach-IsHeld (next r u) = Uses-IsHeld u (Reach-IsHeld r)

-- Whatever decoders and encoders were made before, in any order: the destructor of none of them can be run
-- without undefined behaviour, because the destructor of its buffer gives to `delete` what `new[]` gave.
pub Reach-destroys :
    {w : Packets}
    → Reach no_packets w
    → (before after : List PacketObject) (o : PacketObject) → w.living ≡ before ++ (o ∷ after)
    → destroy_packet_object o w.heap ≡ fault
Reach-destroys {w = w} r before after o e =
    IsHeld-faults w.heap o (living-IsHeld w before after o (Reach-IsHeld r) e)
