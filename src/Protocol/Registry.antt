-- ===== src/Protocol/Registry.antt =====
-- src/protocol-handlers/CHttpProtocolHandler.h: the request handlers of an HTTP protocol handler, by URI
-- and method. Uri, HttpMethod, their order and the constructor of Uri from a text are of another
-- repository: of the order a `std::map` uses whether two keys are equivalent, which is a parameter. How
-- entries are ordered is not observed; here the oldest stands last, or where its key was first met.
use asabru_engine.Common.{
  ◌≡◌, refl, sym, ◌∙◌, if◌then◌else◌, Bool, true, false, List, [], ◌∷◌, ◌&&◌,
}
use asabru_engine.Common.{
  or_else, or_else-none, or_else_assoc, Option, none, some, Bool-cases, inl, inr,
}
use asabru_engine.Proxy.{Text}

abbrev pub Methods : Type 0 → Type 0 → Type 0
Methods M H = List (M × H)

abbrev pub Handlers : Type 0 → Type 0 → Type 0 → Type 0
Handlers U M H = List (U × Methods M H)

module _ {M H : Type 0} (same_method : M → M → Bool) where
  unfoldable pub find_method : M → Methods M H → Option H
  find_method m [] = none
  find_method m ((m', h) ∷ ms) = if same_method m' m then some h else find_method m ms

  -- `insert` of a pair whose key is there leaves the map as it is.
  unfoldable pub insert_method : M → H → Methods M H → Methods M H
  insert_method m h [] = (m, h) ∷ []
  insert_method m h ((m', h') ∷ ms) =
      if same_method m' m then (m', h') ∷ ms else (m', h') ∷ insert_method m h ms

module _ {U M H : Type 0} (same_uri : U → U → Bool) (same_method : M → M → Bool) where
  -- The handler that the two maps hold for a URI and a method.
  unfoldable pub find_handler : U → M → Handlers U M H → Option H
  unfolding find_method
  find_handler u m [] = none
  find_handler u m ((u', ms) ∷ hs) =
      if same_uri u' u then find_method same_method m ms else find_handler u m hs

  -- `request_handlers_[uri]` makes an entry where there is none.
  unfoldable pub register_handler : U → M → H → Handlers U M H → Handlers U M H
  unfolding insert_method
  register_handler u m h [] = (u, insert_method same_method m h []) ∷ []
  register_handler u m h ((u', ms) ∷ hs) =
      if same_uri u' u
      then (u', insert_method same_method m h ms) ∷ hs
      else (u', ms) ∷ register_handler u m h hs

  -- The overload that takes a path.
  unfoldable pub register_path : (Text → U) → Text → M → H → Handlers U M H → Handlers U M H
  unfolding register_handler
  register_path uri path m h hs = register_handler (uri path) m h hs

  abbrev pub register_paths : (Text → U) → List (Text × M × H) → Handlers U M H → Handlers U M H
  register_paths uri [] hs = hs
  register_paths uri ((path, m, h) ∷ later) hs =
      register_paths uri later (register_path uri path m h hs)

  -- The first of some registrations that is for a URI and a method.
  abbrev pub first_registered : (Text → U) → List (Text × M × H) → U → M → Option H
  first_registered uri [] u m = none
  first_registered uri ((path, m', h) ∷ later) u m =
      if same_uri (uri path) u && same_method m' m then some h else first_registered uri later u m

or_else_if :
    {H : Type 0} (a later : Option H) (h : H) (b : Bool)
    → or_else a (or_else (if b then some h else none) later)
      ≡ or_else a (if b then some h else later)
or_else_if a later h true = refl
or_else_if a later h false = refl

-- A key is equivalent to itself, and keys that are equivalent are equivalent to the same keys, as in a
-- `std::map`.
abbrev pub IsKey : {K : Type 0} → (K → K → Bool) → Type 0
IsKey {K} same = ((x : K) → same x x ≡ true) × ((x y z : K) → same x y ≡ true → same x z ≡ same y z)

find_method-insert_method :
    {M H : Type 0} (same_method : M → M → Bool) (key : IsKey same_method) (m m' : M) (h : H)
    (ms : Methods M H)
    → find_method same_method m' (insert_method same_method m h ms)
      ≡ or_else (find_method same_method m' ms) (if same_method m m' then some h else none)
unfolding find_method insert_method
find_method-insert_method same_method key m m' h [] = refl
find_method-insert_method same_method key m m' h ((k, h') ∷ ms) =
    elim (Bool-cases (same_method k m)) [
      | inl e ↦ elim (Bool-cases (same_method k m')) [
        | inl e' ↦ rw e (rw (e', find_method))
        | inr e' ↦
            rw (e, find_method)
              (rw (e', sym (key.1 k m m' e) ∙ e')
                (sym (or_else-none (find_method same_method m' ms))))
      ]
      | inr e ↦ elim (Bool-cases (same_method k m')) [
        | inl e' ↦ rw (e, find_method) (rw e' refl)
        | inr e' ↦ rw (e, find_method) (rw e' (find_method-insert_method same_method key m m' h ms))
      ]
    ]

module _ {U M H : Type 0} (same_uri : U → U → Bool) (same_method : M → M → Bool)
    (uris : IsKey same_uri) (methods : IsKey same_method) where
  find_handler-register_handler :
      (u u' : U) (m m' : M) (h : H) (hs : Handlers U M H)
      → find_handler same_uri same_method u' m' (register_handler same_uri same_method u m h hs)
        ≡ or_else
            (find_handler same_uri same_method u' m' hs)
            (if same_uri u u' && same_method m m' then some h else none)
  unfolding find_handler register_handler
  find_handler-register_handler u u' m m' h [] = elim (Bool-cases (same_uri u u')) [
    | inl e ↦ rw e (find_method-insert_method same_method methods m m' h [])
    | inr e ↦ rw e
  ]
  find_handler-register_handler u u' m m' h ((k, ms) ∷ hs) = elim (Bool-cases (same_uri k u)) [
    | inl e ↦ elim (Bool-cases (same_uri k u')) [
      | inl e' ↦
          rw (e, find_handler)
            (rw (e', sym (uris.1 k u u' e) ∙ e')
              (find_method-insert_method same_method methods m m' h ms))
      | inr e' ↦
          rw (e, find_handler)
            (rw (e', sym (uris.1 k u u' e) ∙ e')
              (sym (or_else-none (find_handler same_uri same_method u' m' hs))))
    ]
    | inr e ↦ elim (Bool-cases (same_uri k u')) [
      | inl e' ↦
          rw (e, find_handler)
            (rw (e', apart k u u' e e') (sym (or_else-none (find_method same_method m' ms))))
      | inr e' ↦ rw (e, find_handler) (rw e' (find_handler-register_handler u u' m m' h hs))
    ]
  ]
    where
      apart : (k u u' : U) → same_uri k u ≡ false → same_uri k u' ≡ true → same_uri u u' ≡ false
      apart k u u' e e' = elim (Bool-cases (same_uri u u')) [
        | inl same ↦ cc (uris.0 u, uris.1 u u' u same, uris.1 k u' u e')
        | inr other ↦ other
      ]

  -- For equivalences of keys as a `std::map` relies on: after any registrations, each for a path and a
  -- method, the handler of a URI and a method is the one that was there before, and otherwise the first
  -- that was registered for them. No registration replaces an earlier one.
  pub find_handler-register_paths :
      (uri : Text → U) (registrations : List (Text × M × H)) (hs : Handlers U M H) (u : U) (m : M)
      → find_handler same_uri same_method u m
          (register_paths same_uri same_method uri registrations hs)
        ≡ or_else
            (find_handler same_uri same_method u m hs)
            (first_registered same_uri same_method uri registrations u m)
  unfolding register_path
  find_handler-register_paths uri [] hs u m =
      sym (or_else-none (find_handler same_uri same_method u m hs))
  find_handler-register_paths uri ((path, m', h) ∷ later) hs u m =
      find_handler-register_paths uri later
        (register_handler same_uri same_method (uri path) m' h hs) u m
      ∙ (rw (find_handler-register_handler (uri path) u m' m h hs) (
          or_else_assoc (find_handler same_uri same_method u m hs) _ _
          ∙ or_else_if (find_handler same_uri same_method u m hs) _ h
              (same_uri (uri path) u && same_method m' m)))
