-- ===== src/Proxy/Libuv.antt =====
-- LibuvProxySocket::ThreadHandler, a second copy of the relay thread.
use asabru_engine.Common.{
  ℕ, ◌≡◌, refl, if◌then◌else◌, Bool, true, false, List, [], ◌∷◌, ◌++◌, arith,
}
use asabru_engine.Common.{Option, none, some, Bool-cases, inl, inr, Checked, ok, fault}
use asabru_engine.Proxy.{
  Text, done, thrown, CProxyHandler, Round, RelayState, is_empty, upstream, downstream, round,
  relay_loop, ResolvedService, ThreadEnd, no_handler, connect_threw, disconnected, relaying,
  start_state, thread_handler, thread_end,
}

module _ {X : Type 0} (handler : CProxyHandler X) where
  -- The client's `try`: the value of `still_connected` behind it.
  unfoldable pub forward_up : Option Text → RelayState X → Bool × RelayState X
  forward_up none s = (true, s)
  forward_up (some bytes) s =
      let (response, x) = handler.handle_upstream_data bytes s.context in
      elim response [
        | done text ↦ (
          (if is_empty bytes then false else true),
          record s { context = x; to_target = s.to_target ++ (text ∷ []) },
        )
        | thrown ↦ (true, record s { context = x })
      ]

  -- The target's `try`.
  unfoldable pub forward_down : Option Text → Bool → RelayState X → Bool × RelayState X
  forward_down none connected s = (connected, s)
  forward_down (some bytes) connected s =
      let (response, x) = handler.handle_downstream_data bytes s.context in
      elim response [
        | done text ↦ (
          (if is_empty bytes then false else connected),
          record s { context = x; to_client = s.to_client ++ (text ∷ []) },
        )
        | thrown ↦ (connected, record s { context = x })
      ]

  unfoldable pub libuv_loop : List Round → RelayState X → ThreadEnd X
  libuv_loop [] s = relaying s
  libuv_loop (r ∷ rounds) s =
      let up = forward_up r.from_client s in
      let down = forward_down r.from_target up.0 up.1 in
      elim down.0 [ true ↦ libuv_loop rounds down.1 | false ↦ disconnected down.1 rounds ]

-- Once the target is connected, the thread asks the client's socket for its descriptor; `none` is a pointer
-- that the server did not set.
unfoldable pub libuv_thread_handler :
    {X : Type 0}
    → Option (CProxyHandler X)
    → ResolvedService
    → (Text → ℕ → Bool)
    → X
    → Option ℕ
    → List Round
    → Checked (ThreadEnd X)
libuv_thread_handler none service connects x client_socket rounds = ok no_handler
libuv_thread_handler (some handler) service connects x client_socket rounds =
    if connects service.ipaddress service.port
    then elim client_socket [
      | none ↦ fault
      | some fd ↦ ok (libuv_loop handler rounds (start_state x))
    ]
    else ok connect_threw

module _ {X : Type 0} (handler : CProxyHandler X) where
  same_up : (o : Option Text) (s : RelayState X) → forward_up handler o s ≡ upstream handler o s
  unfolding forward_up upstream
  same_up none s = refl
  same_up (some []) s = ground arith
  same_up (some (b ∷ bs)) s = ground arith

  same_down :
      (o : Option Text) (c : Bool) (s : RelayState X)
      → forward_down handler o c s ≡ downstream handler o c s
  unfolding forward_down downstream
  same_down none c s = refl
  same_down (some bytes) c s = ground arith

  same_round :
      (r : Round) (s : RelayState X)
      → (let up = forward_up handler r.from_client s in
          forward_down handler r.from_target up.0 up.1)
        ≡ round handler r s
  unfolding round
  same_round r s = rw (same_up r.from_client s) (same_down r.from_target _ _)

  same_loop :
      (rounds : List Round) (s : RelayState X)
      → libuv_loop handler rounds s ≡ thread_end (relay_loop handler rounds s)
  unfolding libuv_loop relay_loop
  same_loop [] s = refl
  same_loop (r ∷ rounds) s =
      rw (same_round r s, libuv_loop)
        (elim (Bool-cases (round handler r s).0) [
          | inl e ↦
              rw (e, relay_loop) (simp (same_round r s) (same_loop rounds (round handler r s).1))
          | inr e ↦ rw (e, relay_loop) (simp (same_round r s))
        ])

-- There is a handler, and the target can be connected to.
abbrev pub reaches_target :
    {X : Type 0} → Option (CProxyHandler X) → ResolvedService → (Text → ℕ → Bool) → Bool
reaches_target none service connects = false
reaches_target (some handler) service connects = connects service.ipaddress service.port

-- Given a client's socket, the two relay threads end alike: with no handler, with a target that cannot be
-- reached, and otherwise after the same rounds, with the same context and the same texts handed to
-- SendBytes for both sides. Without one, as the libuv server leaves it, the second thread faults exactly
-- where the first connects to its target, and ends as the first where it does not.
pub libuv_thread_handler-thread_handler :
    {X : Type 0} (handler : Option (CProxyHandler X)) (service : ResolvedService)
    (connects : Text → ℕ → Bool) (x : X) (fd : ℕ) (rounds : List Round)
    → (libuv_thread_handler handler service connects x (some fd) rounds
        ≡ ok (thread_handler handler service connects x rounds))
      × (libuv_thread_handler handler service connects x none rounds ≡ (
          if reaches_target handler service connects
          then fault
          else ok (thread_handler handler service connects x rounds)))
unfolding libuv_thread_handler thread_handler
libuv_thread_handler-thread_handler none service connects x fd rounds = (refl, refl)
libuv_thread_handler-thread_handler (some handler) service connects x fd rounds =
    elim (Bool-cases (connects service.ipaddress service.port)) [
      | inl up ↦ (
        rw (up, libuv_thread_handler) (rw (same_loop handler rounds (start_state x))),
        rw (up, libuv_thread_handler),
      )
      | inr down ↦ (rw (down, libuv_thread_handler), rw (down, libuv_thread_handler))
    ]
