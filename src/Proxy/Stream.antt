-- ===== src/Proxy/Stream.antt =====
-- The bytes that the relay thread puts on its two connections: each text goes to one SendBytes of
-- src/socket/Socket.cpp, which may send a part of it.
use asabru_engine.Common.{
  ℕ, ◌+◌, ◌≤◌, ◌≡◌, ◌↔◌, refl, ap, arith, length, length-append, length-take, take,
}
use Prim.Native.Nat.{min}
use asabru_engine.Common.{Bool, true, false, List, [], ◌∷◌, ◌++◌, map, All}
use asabru_engine.Net.Receive.{Event}
use asabru_engine.Net.Receive.Bytes.{joined, take_all}
use asabru_engine.Net.Send.{Sent, took, refused, gone_out, send_bytes}
use asabru_engine.Proxy.{Text, CProxyHandler, Round, RelayState, start_state}
use asabru_engine.Proxy.Relay.{until_end, Transform, Answers, answers}
use asabru_engine.Proxy.Sockets.{
  LoopEnd, left, running, blocked, overran, loop_end, socket_loop, Turn, IsTurn, round_of,
  client_script, target_script, socket_loop-forwards,
}

-- The texts are sent one by one; `answer` says what becomes of each call, counted from `i`.
unfoldable pub stream : (ℕ → Sent) → ℕ → List Text → List ℕ
unfolding send_bytes
stream answer i [] = []
stream answer i (text ∷ texts) = send_bytes (answer i) text ++ stream answer (i + 1) texts

-- How much a call takes at most.
abbrev pub amount : Sent → ℕ
amount (took n) = n
amount refused = 0

abbrev pub AllTaken : (ℕ → Sent) → ℕ → List Text → Type 0
AllTaken answer i [] = Unit
AllTaken answer i (text ∷ texts) = (length text ≤ amount (answer i)) × AllTaken answer (i + 1) texts

gone_out-take : (a : Sent) (text : Text) → gone_out a text ≡ take (amount a) text
gone_out-take (took n) text = refl
gone_out-take refused text = refl

length-gone_out : (a : Sent) (text : Text) → length (gone_out a text) ≡ min (amount a) (length text)
length-gone_out a text = rw (gone_out-take a text) (length-take (amount a) text)

length-stream :
    (answer : ℕ → Sent) (i : ℕ) (texts : List Text)
    → length (stream answer i texts) ≤ length (joined texts)
unfolding stream
length-stream answer i [] = omega arith
length-stream answer i (text ∷ texts) = omega (
  arith,
  length-append (gone_out (answer i) text) (stream answer (i + 1) texts),
  length-append text (joined texts),
  length-gone_out (answer i) text,
  length-stream answer (i + 1) texts,
)

full-AllTaken :
    (answer : ℕ → Sent) (i : ℕ) (texts : List Text)
    → length (stream answer i texts) ≡ length (joined texts)
    → AllTaken answer i texts
unfolding stream
full-AllTaken answer i [] e = tt
full-AllTaken answer i (text ∷ texts) e =
    let here = length-gone_out (answer i) text in
    let both = length-append (gone_out (answer i) text) (stream answer (i + 1) texts) in
    let whole = length-append text (joined texts) in
    let later = length-stream answer (i + 1) texts in
    (
      omega (arith, e, here, both, whole, later),
      full-AllTaken answer (i + 1) texts (omega (arith, e, here, both, whole, later)),
    )

AllTaken-stream :
    (answer : ℕ → Sent) (i : ℕ) (texts : List Text)
    → AllTaken answer i texts
    → stream answer i texts ≡ joined texts
unfolding stream
AllTaken-stream answer i [] h = refl
AllTaken-stream answer i (text ∷ texts) (h, hs) = rw (
  gone_out-take (answer i) text,
  take_all text (amount (answer i)) h,
  AllTaken-stream answer (i + 1) texts hs,
)

stream_iff :
    (answer : ℕ → Sent) (texts : List Text)
    → (stream answer 0 texts ≡ joined texts) ↔ AllTaken answer 0 texts
stream_iff answer texts =
    (λ e. full-AllTaken answer 0 texts (ap length e), AllTaken-stream answer 0 texts)

-- What went out to the target and to the client, when the loop ended or where it stands.
abbrev pub state_of : {X : Type 0} → LoopEnd X → RelayState X
state_of (left s) = s
state_of (running s) = s
state_of (blocked s) = s
state_of (overran s) = s

abbrev pub wires : {X : Type 0} → (ℕ → Sent) → (ℕ → Sent) → RelayState X → List ℕ × List ℕ
wires on_target on_client s = (stream on_target 0 s.to_target, stream on_client 0 s.to_client)

state_of-loop_end :
    {X : Type 0} (b : Bool) (s : RelayState X) (rest : List Round)
    → state_of (loop_end (b, s, rest)) ≡ s
state_of-loop_end true s rest = refl
state_of-loop_end false s rest = refl

wires_iff :
    {X : Type 0} (on_target on_client : ℕ → Sent) (s : RelayState X)
    → (wires on_target on_client s ≡ (joined s.to_target, joined s.to_client))
      ↔ (AllTaken on_target 0 s.to_target × AllTaken on_client 0 s.to_client)
wires_iff on_target on_client s =
    let target = stream_iff on_target s.to_target in
    let client = stream_iff on_client s.to_client in
    (
      λ e. (
        target.0 (ap (λ (p : List ℕ × List ℕ). p.0) e),
        client.0 (ap (λ (p : List ℕ × List ℕ). p.1) e),
      ),
      λ (h, k). cc (target.1 h, client.1 k),
    )

-- A relay with a handler that answers every text and never throws, on two sockets with descriptors below
-- FD_SETSIZE whose `select` answers name the sides that do something, and whose peers send messages in
-- pieces as ReceiveBytes takes them, close or fail. It hands the answers for each side, in order, up to
-- the turn in which a side closes or fails, to SendBytes, each text meeting the context that the one
-- before it left, and leaves its loop in that turn and in no other, whatever becomes of the sends; the
-- bytes that go out on both connections are those answers joined exactly if every send takes the whole
-- text that it is given.
pub socket_loop-stream :
    {X : Type 0} (handler : CProxyHandler X) (f : Transform X)
    → Answers handler f
    → (client target : ℕ) (turns : List Turn) (client_later target_later : List Event) (x : X)
    → All (IsTurn client target) turns
    → (on_target on_client : ℕ → Sent)
    → let taken = until_end (map round_of turns) in
      let answered = answers f x taken.0 in
      let result =
        socket_loop handler client target
          (map (λ t. t.answer) turns)
          (client_script turns client_later)
          (target_script turns target_later)
          (start_state x) in
      (result
        ≡ loop_end (
          taken.1,
          record { context = answered.2; to_target = answered.0; to_client = answered.1 },
          taken.2,
        ))
      × ((wires on_target on_client (state_of result) ≡ (joined answered.0, joined answered.1))
          ↔ (AllTaken on_target 0 answered.0 × AllTaken on_client 0 answered.1))
socket_loop-stream handler f ups client target turns cl tl x h on_target on_client =
    let taken = until_end (map round_of turns) in
    let answered = answers f x taken.0 in
    let s : RelayState _ = record {
      context = answered.2;
      to_target = answered.0;
      to_client = answered.1;
    } in
    let runs = socket_loop-forwards handler f ups client target turns cl tl (start_state x) h in
    (runs, rw runs (rw (state_of-loop_end taken.1 s taken.2) (wires_iff on_target on_client s)))
