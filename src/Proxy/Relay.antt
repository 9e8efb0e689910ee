-- ===== src/Proxy/Relay.antt =====
-- What the relay loop forwards, and when it ends.
use asabru_engine.Common.{◌≡◌, refl, ◌∙◌, if◌then◌else◌, arith, append_assoc, append-nil}
use asabru_engine.Common.{Bool, true, false, Option, none, some, List, [], ◌∷◌, ◌++◌, ◌||◌}
use asabru_engine.Common.{Bool-cases, inl, inr, All, not}
use asabru_engine.Proxy.{
  Text, done, thrown, CProxyHandler, Round, RelayState, is_empty, upstream, downstream, round,
  relay_loop,
}

-- A side reports the end of its stream by an empty read.
abbrev pub closes : Option Text → Bool
closes none = false
closes (some t) = is_empty t

abbrev pub ends : Round → Bool
ends r = closes r.from_client || closes r.from_target

-- The rounds up to the first at whose end a side has closed, whether there is one, and the rest.
unfoldable pub until_end : List Round → List Round × Bool × List Round
until_end [] = ([], false, [])
until_end (r ∷ rounds) =
    let later = until_end rounds in
    if ends r then (r ∷ [], true, rounds) else (r ∷ later.0, later.1, later.2)

-- What a handler that never throws makes of a text in a context: its answer, and the context behind it.
pub record Transform (X : Type 0) : Type 0 where
  pub up : Text → X → Text
  pub up_context : Text → X → X
  pub down : Text → X → Text
  pub down_context : Text → X → X

abbrev pub Answers : {X : Type 0} → CProxyHandler X → Transform X → Type 0
Answers {X} handler f =
    ((t : Text) (x : X) → handler.handle_upstream_data t x ≡ (done (f.up t x), f.up_context t x))
    × ((t : Text) (x : X)
        → handler.handle_downstream_data t x ≡ (done (f.down t x), f.down_context t x))

-- The answer to what was read from one side, if anything was.
abbrev pub answer : {X : Type 0} → (Text → X → Text) → Option Text → X → List Text
answer f none x = []
answer f (some t) x = f t x ∷ []

abbrev pub context_after : {X : Type 0} → (Text → X → X) → Option Text → X → X
context_after f none x = x
context_after f (some t) x = f t x

-- The answers for the target and for the client, and the context behind them.
abbrev pub answers : {X : Type 0} → Transform X → X → List Round → List Text × List Text × X
answers f x [] = ([], [], x)
answers f x (r ∷ rounds) =
    let x' = context_after f.up_context r.from_client x in
    let later = answers f (context_after f.down_context r.from_target x') rounds in
    (answer f.up r.from_client x ++ later.0, answer f.down r.from_target x' ++ later.1, later.2)

module _ {X : Type 0} (handler : CProxyHandler X) (f : Transform X) (ups : Answers handler f) where
  upstream_lem :
      (o : Option Text) (s : RelayState X)
      → upstream handler o s ≡ (
        not (closes o),
        record s {
          context = context_after f.up_context o s.context;
          to_target = s.to_target ++ answer f.up o s.context;
        },
      )
  unfolding upstream
  upstream_lem none s = rw append-nil
  upstream_lem (some t) s = ground (arith, ups.0 t s.context)

  downstream_lem :
      (o : Option Text) (c : Bool) (s : RelayState X)
      → downstream handler o c s ≡ (
        (if closes o then false else c),
        record s {
          context = context_after f.down_context o s.context;
          to_client = s.to_client ++ answer f.down o s.context;
        },
      )
  unfolding downstream
  downstream_lem none c s = rw append-nil
  downstream_lem (some t) c s = ground (arith, ups.1 t s.context)

  round_lem :
      (r : Round) (s : RelayState X)
      → let x = context_after f.up_context r.from_client s.context in
        round handler r s ≡ (
          not (ends r),
          record {
            context = context_after f.down_context r.from_target x;
            to_target = s.to_target ++ answer f.up r.from_client s.context;
            to_client = s.to_client ++ answer f.down r.from_target x;
          },
        )
  unfolding round
  round_lem r s = rw (upstream_lem r.from_client s, downstream_lem r.from_target _ _) (ground arith)

  -- With a handler that answers every text and never throws, the relay hands SendBytes for the target the
  -- answers to all the client's texts, in order, and for the client those to the target's, up to and
  -- including the first round in which a side closes; it leaves its loop there, and nowhere else. The
  -- context that a text leaves is that of the next, whichever side it comes from.
  pub relay_loop-forwards :
      (rounds : List Round) (s : RelayState X)
      → let taken = until_end rounds in
        let answered = answers f s.context taken.0 in
        relay_loop handler rounds s ≡ (
          taken.1,
          record {
            context = answered.2;
            to_target = s.to_target ++ answered.0;
            to_client = s.to_client ++ answered.1;
          },
          taken.2,
        )
  unfolding relay_loop until_end
  relay_loop-forwards [] s = simp append-nil
  relay_loop-forwards (r ∷ rounds) s = elim (Bool-cases (ends r)) [
    | inl e ↦ rw (round_lem r s, relay_loop) (rw e (simp (round_lem r s, append-nil)))
    | inr e ↦
        rw (round_lem r s, relay_loop)
          (rw e (relay_loop-forwards rounds _ ∙ simp (round_lem r s, append_assoc)))
  ]

-- A handler that throws on empty input keeps the loop alive after the client has closed: as long as
-- every round brings the client's empty read and nothing from the target, the loop does not end.
pub relay_loop-masked_close :
    {X : Type 0} (handler : CProxyHandler X)
    → ((x : X) → handler.handle_upstream_data [] x ≡ (thrown, x))
    → (rounds : List Round) (s : RelayState X)
    → All (λ r. r ≡ record { from_client = some []; from_target = none }) rounds
    → relay_loop handler rounds s ≡ (false, s, [])
unfolding relay_loop round upstream downstream
relay_loop-masked_close handler throws [] s closed = refl
relay_loop-masked_close handler throws (r ∷ rounds) s (e, closed) =
    ground (arith, e, throws s.context, relay_loop-masked_close handler throws rounds s closed)
