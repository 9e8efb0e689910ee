-- ===== src/Proxy/Leaving.antt =====
-- When the relay loop of src/interface/CProxySocket.cpp is left.
use asabru_engine.Common.{
  ℕ, ◌≡◌, refl, ◌∙◌, sym, if◌then◌else◌, arith, All, map, inl, inr, ◌⊎◌, not, ◌||◌,
}
use asabru_engine.Common.{Bool, true, false, Option, none, some, List, [], ◌∷◌}
use asabru_engine.Net.Receive.{Event}
use asabru_engine.Proxy.{
  Text, Attempt, done, CProxyHandler, Round, RelayState, upstream, downstream, round, relay_loop,
}
use asabru_engine.Proxy.Relay.{closes, ends}
use asabru_engine.Proxy.Sockets.{
  Side, quiet, closing, failing, sends, offered, IsSide, Turn, IsTurn, round_of, client_script,
  target_script, left, running, loop_end, socket_loop, socket_loop-relay_loop,
}

-- The side closes its connection, or its `recv` fails.
abbrev pub is_over : Side → Bool
is_over quiet = false
is_over closing = true
is_over failing = true
is_over (sends piece pieces) = false

abbrev pub any_over : List Turn → Bool
any_over [] = false
any_over (t ∷ turns) = (is_over t.of_client || is_over t.of_target) || any_over turns

abbrev any_ends : List Round → Bool
any_ends [] = false
any_ends (r ∷ rounds) = ends r || any_ends rounds

-- A method of the handler answers the empty text, in every context.
abbrev pub AnswersEmpty : {X : Type 0} → (Text → X → Attempt Text × X) → Type 0
AnswersEmpty {X} handle = (x : X) → (text : Text) × ((handle [] x).0 ≡ done text)

is_over-closes : (side : Side) → IsSide side → closes (offered side) ≡ is_over side
is_over-closes quiet h = refl
is_over-closes closing h = refl
is_over-closes failing h = refl
is_over-closes (sends [] pieces) h = absurd (omega (arith, h.0.0))
is_over-closes (sends (b ∷ bs) pieces) h = refl

any_over-any_ends :
    (client target : ℕ) (turns : List Turn)
    → All (IsTurn client target) turns
    → any_ends (map round_of turns) ≡ any_over turns
any_over-any_ends client target [] h = refl
any_over-any_ends client target (t ∷ turns) ((_, _, _, _, c, g), h) = rw (
  is_over-closes t.of_client c,
  is_over-closes t.of_target g,
  any_over-any_ends client target turns h,
)

module _ {X : Type 0} (handler : CProxyHandler X) (ups : AnswersEmpty handler.handle_upstream_data)
    (downs : AnswersEmpty handler.handle_downstream_data) where
  upstream-closes : (o : Option Text) (s : RelayState X) → (upstream handler o s).0 ≡ not (closes o)
  unfolding upstream
  upstream-closes none s = refl
  upstream-closes (some []) s = ground (arith, (ups s.context).1)
  upstream-closes (some (b ∷ bs)) s = ground arith

  downstream-closes :
      (o : Option Text) (c : Bool) (s : RelayState X)
      → (downstream handler o c s).0 ≡ (if closes o then false else c)
  unfolding downstream
  downstream-closes none c s = refl
  downstream-closes (some []) c s = ground (arith, (downs s.context).1)
  downstream-closes (some (b ∷ bs)) c s = ground arith

  round-ends : (r : Round) (s : RelayState X) → (round handler r s).0 ≡ not (ends r)
  unfolding round
  round-ends r s = ground (
    arith,
    upstream-closes r.from_client s,
    downstream-closes r.from_target (upstream handler r.from_client s).0
        (upstream handler r.from_client s).1,
  )

  relay_loop-any_ends :
      (rounds : List Round) (s : RelayState X) → (relay_loop handler rounds s).0 ≡ any_ends rounds
  unfolding relay_loop
  relay_loop-any_ends [] s = refl
  relay_loop-any_ends (r ∷ rounds) s =
      ground (arith, round-ends r s, relay_loop-any_ends rounds (round handler r s).1)

loop_end_cases :
    {X : Type 0} (r : Bool × RelayState X × List Round)
    → ((r.0 ≡ true) × (s : RelayState X) × (loop_end r ≡ left s))
      ⊎ ((r.0 ≡ false) × (s : RelayState X) × (loop_end r ≡ running s))
loop_end_cases (true, s, rounds) = inl (refl, s, refl)
loop_end_cases (false, s, rounds) = inr (refl, s, refl)

-- With a handler that answers the empty text, whatever it does with other texts, exceptions included, on two
-- sockets with descriptors below FD_SETSIZE whose `select` answers name the sides that do something, and
-- whose peers send messages in pieces as ReceiveBytes takes them, close or fail, the relay leaves its loop if in some turn a side closes or fails, and
-- otherwise is at its next `select` when the turns are over: it neither ends early nor hangs.
pub socket_loop-leaves :
    {X : Type 0} (handler : CProxyHandler X)
    → AnswersEmpty handler.handle_upstream_data
    → AnswersEmpty handler.handle_downstream_data
    → (client target : ℕ) (turns : List Turn) (client_later target_later : List Event)
      (s : RelayState X)
    → All (IsTurn client target) turns
    → let result =
        socket_loop handler client target
          (map (λ t. t.answer) turns)
          (client_script turns client_later)
          (target_script turns target_later)
          s in
      ((any_over turns ≡ true) × (s' : RelayState X) × (result ≡ left s'))
      ⊎ ((any_over turns ≡ false) × (s' : RelayState X) × (result ≡ running s'))
socket_loop-leaves handler ups downs client target turns cl tl s h =
    let r = relay_loop handler (map round_of turns) s in
    let over = sym (
      relay_loop-any_ends handler ups downs (map round_of turns) s
      ∙ any_over-any_ends client target turns h) in
    let same = socket_loop-relay_loop handler client target turns cl tl s h in
    elim (loop_end_cases r) [
      | inl (e, s', is_left) ↦ inl (over ∙ e, s', same ∙ is_left)
      | inr (e, s', is_running) ↦ inr (over ∙ e, s', same ∙ is_running)
    ]
