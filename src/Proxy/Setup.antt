-- ===== src/Proxy/Setup.antt =====
-- CProxySocket.h: what is set on a proxy socket before it listens, and Start. Opening the port and the
-- load balancer's own choice are not the program's; Start is followed up to its call of Open.
use asabru_engine.Common.{◌≡◌, refl, if◌then◌else◌, Bool, true, false, List, [], ◌∷◌, ◌++◌, arith}
use asabru_engine.Common.{
  or_else, or_else-none, Option, none, some, not, ◌&&◌, append_assoc, append-nil, ◌∙◌, sym,
}
use asabru_engine.Proxy.{Text, ResolvedService, is_empty}

-- The routine that each accepted connection runs.
pub data Routine (P : Type 0) : Type 0 where
  relay_thread : Routine P
  pipeline : P → Routine P

-- `std::map<std::string, RESOLVED_SERVICE>`, the newest entry first.
abbrev pub HostMap : Type 0
HostMap = List (Text × ResolvedService)

pub record CProxySocket (H P : Type 0) : Type 0 where
  pub m_handler : Option H
  pub thread_routine_override : Routine P
  pub services : List ResolvedService
  pub load_balancer : List ResolvedService
  pub hostname_map : HostMap

module _ {H P : Type 0} where
  unfoldable pub new_proxy_socket : CProxySocket H P
  new_proxy_socket = record {
    m_handler = none;
    thread_routine_override = relay_thread;
    services = [];
    load_balancer = [];
    hostname_map = [];
  }

  unfoldable pub set_handler : Option H → CProxySocket H P → Bool × CProxySocket H P
  set_handler h s = (elim h [ none ↦ false | some _ ↦ true ], record s { m_handler = h })

  unfoldable pub set_pipeline : Option P → CProxySocket H P → Bool × CProxySocket H P
  set_pipeline none s = (false, s)
  set_pipeline (some f) s = (true, record s { thread_routine_override = pipeline f })

  unfoldable pub set_config_values :
      List ResolvedService → CProxySocket H P → Bool × CProxySocket H P
  set_config_values services s = (true, record s { services = services })

-- The loop of Start: each service goes to the load balancer, and under its host name into the map, if
-- it has one.
unfoldable pub add_services :
    List ResolvedService → List ResolvedService → HostMap → List ResolvedService × HostMap
add_services [] balancer hosts = (balancer, hosts)
add_services (service ∷ services) balancer hosts =
    add_services services (balancer ++ (service ∷ [])) (
      if is_empty service.source_hostname
      then hosts
      else (service.source_hostname, service) ∷ hosts)

module _ {H P : Type 0} where
  -- Start up to its last line: the socket, and the routine that Open is called with.
  unfoldable pub start : CProxySocket H P → CProxySocket H P × Routine P
  start s =
      let (balancer, hosts) = add_services s.services [] [] in
      (record s { load_balancer = balancer; hostname_map = hosts }, s.thread_routine_override)

-- The host map is read by the first entry of a name, the newest.
module _ (same : Text → Text → Bool) where
  unfoldable pub lookup : Text → HostMap → Option ResolvedService
  lookup name [] = none
  lookup name ((host, service) ∷ m) = if same host name then some service else lookup name m

  -- The last service in the configuration with the host name that is asked for.
  unfoldable pub last_with : Text → List ResolvedService → Option ResolvedService
  last_with name [] = none
  last_with name (service ∷ services) =
      let later = last_with name services in
      elim later [
        | some s ↦ some s
        | none ↦
            if not (is_empty service.source_hostname) && same service.source_hostname name
            then some service
            else none
      ]

  add_services-lookup :
      (services balancer : List ResolvedService) (hosts : HostMap) (name : Text)
      → lookup name (add_services services balancer hosts).1
        ≡ or_else (last_with name services) (lookup name hosts)
  unfolding add_services lookup last_with
  add_services-lookup [] balancer hosts name = refl
  add_services-lookup (s ∷ services) balancer hosts name = ground (
    arith,
    add_services-lookup services (balancer ++ (s ∷ []))
        (if is_empty s.source_hostname then hosts else (s.source_hostname, s) ∷ hosts) name,
  )

  add_services-balancer :
      (services balancer : List ResolvedService) (hosts : HostMap)
      → (add_services services balancer hosts).0 ≡ balancer ++ services
  unfolding add_services
  add_services-balancer [] balancer hosts = sym (append-nil balancer)
  add_services-balancer (s ∷ services) balancer hosts =
      add_services-balancer services (balancer ++ (s ∷ [])) _
      ∙ append_assoc balancer (s ∷ []) services

  -- After Start the load balancer has all configured services, in their order, and the host map gives
  -- for each name the last configured service that has it as its non-empty host name, or nothing; what
  -- Open gets is the routine that was set last.
  pub start_lem :
      {H P : Type 0} (s : CProxySocket H P) (name : Text)
      → ((start s).0.load_balancer ≡ s.services)
        × (lookup name (start s).0.hostname_map ≡ last_with name s.services)
        × ((start s).1 ≡ s.thread_routine_override)
  unfolding start lookup
  start_lem s name = (
    add_services-balancer s.services [] [],
    add_services-lookup s.services [] [] name ∙ or_else-none _,
    refl,
  )
