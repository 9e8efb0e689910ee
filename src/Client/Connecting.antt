-- ===== src/Client/Connecting.antt =====
-- When a client socket connects.
use asabru_engine.Common.{ℕ, ◌<◌, ◌≡◌, ◌↔◌, ◌⊎◌, inl, inr, refl, ap, ◌∙◌, arith}
use asabru_engine.Common.{true, false, [], ◌∷◌, length, none, some, ok, fault}
use asabru_engine.Common.{Bool-cases, Option-cases}
use asabru_engine.Proxy.{Text, Attempt, done, thrown}
use asabru_engine.Client.{
  Network, CClientSocket, is_name, resolve, free_host, connect, new_client_socket, server_name_room,
}

-- The host that a dotted address stands for.
abbrev pub Resolves : Network → Text → ℕ → Type 0
Resolves net host a = (is_name net host ≡ false) × (net.create_hostent host ≡ done (some a))

pub Attempt-cases : {A : Type 0} (m : Attempt A) → (m ≡ thrown) ⊎ ((a : A) × (m ≡ done a))
Attempt-cases (done a) = inr (a, refl)
Attempt-cases thrown = inl refl

connected :
    (net : Network) (c : CClientSocket)
    → connect net c ≡ ok (done tt)
    → (a : ℕ) × Resolves net c.m_server_name a × (net.connects a c.m_server_port ≡ true)
unfolding connect resolve free_host
connected net c e = elim (Bool-cases (is_name net c.m_server_name)) [
  | inl name ↦ elim (Option-cases (net.gethostbyname c.m_server_name)) [
    | inl unknown ↦ absurd (ground arith)
    | inr (a, known) ↦ absurd (ground arith)
  ]
  | inr dotted ↦ elim (Attempt-cases (net.create_hostent c.m_server_name)) [
    | inl throws ↦ absurd (ground arith)
    | inr (found, resolves) ↦ elim (Option-cases found) [
      | inl nothing ↦ absurd (ground arith)
      | inr (a, here) ↦ (a, (dotted, ground arith), ground arith)
    ]
  ]
]

-- Connect succeeds exactly for a host that is not taken for a name, whose address resolves, and whose
-- endpoint can be connected to.
pub connect_iff :
    (net : Network) (c : CClientSocket)
    → (connect net c ≡ ok (done tt))
      ↔ ((a : ℕ) × Resolves net c.m_server_name a × (net.connects a c.m_server_port ≡ true))
unfolding connect resolve free_host
connect_iff net c = (λ e. connected net c e, λ h. ground arith)

-- For a dotted host that resolves, Connect goes through or throws.
pub connect-answers :
    (net : Network) (c : CClientSocket) (a : ℕ)
    → Resolves net c.m_server_name a
    → (m : Attempt (Unit {0})) × (connect net c ≡ ok m)
unfolding connect resolve free_host
connect-answers net c a h = elim (Bool-cases (net.connects a c.m_server_port)) [
  | inl up ↦ (done tt, ground arith)
  | inr down ↦ (thrown, ground arith)
]

-- A host that connects gives the socket with the descriptor, and nothing is closed.
pub new_client_socket-connects :
    (net : Network) (fd port a : ℕ) (host : Text)
    → length host < server_name_room
    → Resolves net host a
    → net.connects a port ≡ true
    → new_client_socket net (some fd) host port
      ≡ ok (
        done (record { s = some fd; m_server_name = host; m_server_port = port; closes = [] }),
        [],
      )
unfolding new_client_socket connect resolve free_host
new_client_socket-connects net fd port a host short resolves up = ground arith

-- An unknown name or address, or an endpoint that cannot be connected to.
abbrev pub Refuses : Network → Text → ℕ → Type 0
Refuses net host port =
    ((is_name net host ≡ true)
      × ((net.gethostbyname host ≡ none)
          ⊎ ((a : ℕ) × (net.gethostbyname host ≡ some a) × (net.connects a port ≡ false))))
    ⊎ ((is_name net host ≡ false)
        × ((net.create_hostent host ≡ thrown)
            ⊎ ((a : ℕ) × (net.create_hostent host ≡ done (some a))
                × (net.connects a port ≡ false))))

-- The constructor with a name shorter than 255 bytes. It connects exactly for a host that is not taken for
-- a name, whose address resolves, and whose endpoint can be connected to. Where the host begins with a
-- letter, is known, and can be connected to, it frees the resolver's static storage, and where a dotted
-- address gives no host it goes through a null pointer. Where the name is unknown, the dotted address makes
-- create_hostent throw, or the endpoint cannot be connected to, it throws, with its descriptor closed.
pub new_client_socket_cases :
    (net : Network) (fd port : ℕ) (host : Text)
    → length host < server_name_room
    → ((a : ℕ) × Resolves net host a
        × (net.connects a port ≡ true)
        × (new_client_socket net (some fd) host port
            ≡ ok (
              done
                  (record { s = some fd; m_server_name = host; m_server_port = port; closes = [] }),
              [],
            )))
      ⊎ ((((a : ℕ) × (is_name net host ≡ true)
              × (net.gethostbyname host ≡ some a)
              × (net.connects a port ≡ true))
            ⊎ ((is_name net host ≡ false) × (net.create_hostent host ≡ done none)))
          × (new_client_socket net (some fd) host port ≡ fault))
      ⊎ (Refuses net host port
          × (new_client_socket net (some fd) host port ≡ ok (thrown, some fd ∷ [])))
unfolding new_client_socket connect resolve free_host
new_client_socket_cases net fd port host short = elim (Bool-cases (is_name net host)) [
  | inl name ↦ elim (Option-cases (net.gethostbyname host)) [
    | inl unknown ↦ inr (inr (inl (name, inl unknown), ground arith))
    | inr (a, known) ↦ elim (Bool-cases (net.connects a port)) [
      | inl up ↦ inr (inl (inl (a, name, known, up), ground arith))
      | inr refuses ↦ inr (inr (inl (name, inr (a, known, refuses)), ground arith))
    ]
  ]
  | inr dotted ↦ elim (Attempt-cases (net.create_hostent host)) [
    | inl throws ↦ inr (inr (inr (dotted, inl throws), ground arith))
    | inr (found, resolves) ↦ elim (Option-cases found) [
      | inl null ↦ inr (inl (inr (dotted, resolves ∙ ap done null), ground arith))
      | inr (a, here) ↦ elim (Bool-cases (net.connects a port)) [
        | inl up ↦ inl (a, (dotted, resolves ∙ ap done here), up, ground arith)
        | inr refuses ↦
            inr (inr (inr (dotted, inr (a, resolves ∙ ap done here, refuses)), ground arith))
      ]
    ]
  ]
]
