-- ===== src/Proxy/Variants.antt =====
-- src/interface/LibuvProxySocket.h and CApiGatewaySocket.h, CApiGatewaySocket.cpp: the other two proxy
-- sockets, with what is set on them and what Start does before it calls Open.
use asabru_engine.Common.{
  ◌≡◌, sym, ◌∙◌, Bool, true, false, List, [], ◌∷◌, ◌++◌, Option, none, some, append_assoc,
  append-nil,
}
use asabru_engine.Proxy.{Text, ResolvedService}
use asabru_engine.Proxy.Setup.{
  Routine, relay_thread, pipeline, CProxySocket, HostMap, new_proxy_socket, start, start_lem,
}

pub record LibuvProxySocket (H P : Type 0) : Type 0 where
  pub m_handler : Option H
  pub thread_routine_override : Routine P
  pub services : List ResolvedService
  pub load_balancer : List ResolvedService

module _ {H P : Type 0} where
  unfoldable pub new_libuv_proxy_socket : LibuvProxySocket H P
  new_libuv_proxy_socket = record {
    m_handler = none;
    thread_routine_override = relay_thread;
    services = [];
    load_balancer = [];
  }

  unfoldable pub set_libuv_handler : Option H → LibuvProxySocket H P → Bool × LibuvProxySocket H P
  set_libuv_handler h s = (elim h [ none ↦ false | some _ ↦ true ], record s { m_handler = h })

  unfoldable pub set_libuv_pipeline : Option P → LibuvProxySocket H P → Bool × LibuvProxySocket H P
  set_libuv_pipeline none s = (false, s)
  set_libuv_pipeline (some f) s = (true, record s { thread_routine_override = pipeline f })

  unfoldable pub set_libuv_config_values :
      List ResolvedService → LibuvProxySocket H P → Bool × LibuvProxySocket H P
  set_libuv_config_values services s = (true, record s { services = services })

-- The loop of Start.
unfoldable pub add_servers : List ResolvedService → List ResolvedService → List ResolvedService
add_servers [] balancer = balancer
add_servers (service ∷ services) balancer = add_servers services (balancer ++ (service ∷ []))

module _ {H P : Type 0} where
  unfoldable pub libuv_start : LibuvProxySocket H P → LibuvProxySocket H P × Routine P
  unfolding add_servers
  libuv_start s =
      (record s { load_balancer = add_servers s.services [] }, s.thread_routine_override)

-- CApiGatewaySocket: a proxy socket with a host map of its own, by path. Its Start leaves the load
-- balancer as it is, which nothing has set.
pub record CApiGatewaySocket (H P : Type 0) : Type 0 where
  pub base : CProxySocket H P
  pub api_hostname_map : List (Text × HostMap)

module _ {H P : Type 0} where
  unfoldable pub new_api_gateway_socket : CApiGatewaySocket H P
  unfolding new_proxy_socket
  new_api_gateway_socket = record { base = new_proxy_socket; api_hostname_map = [] }

  unfoldable pub set_api_gateway_config :
      List (Text × HostMap) → CApiGatewaySocket H P → CApiGatewaySocket H P
  set_api_gateway_config h_map s = record s { api_hostname_map = h_map }

  unfoldable pub set_api_gateway_pipeline :
      Option P → CApiGatewaySocket H P → Bool × CApiGatewaySocket H P
  set_api_gateway_pipeline none s = (false, s)
  set_api_gateway_pipeline (some f) s =
      (true, record s { base = record s.base { thread_routine_override = pipeline f } })

  unfoldable pub api_gateway_start : CApiGatewaySocket H P → CApiGatewaySocket H P × Routine P
  api_gateway_start s = (s, s.base.thread_routine_override)

add_servers-append :
    (services balancer : List ResolvedService)
    → add_servers services balancer ≡ balancer ++ services
unfolding add_servers
add_servers-append [] balancer = sym (append-nil balancer)
add_servers-append (s ∷ services) balancer =
    add_servers-append services (balancer ++ (s ∷ [])) ∙ append_assoc balancer (s ∷ []) services

-- Start of both proxy sockets gives the load balancer the same servers, and Open the same routine.
pub libuv_start-start :
    {H P : Type 0} (same : Text → Text → Bool) (l : LibuvProxySocket H P) (s : CProxySocket H P)
    → l.services ≡ s.services
    → l.thread_routine_override ≡ s.thread_routine_override
    → ((libuv_start l).0.load_balancer ≡ (start s).0.load_balancer)
      × ((libuv_start l).1 ≡ (start s).1)
unfolding libuv_start
libuv_start-start same l s e e' =
    let (balancer, hosts, routine) = start_lem same s [] in
    (add_servers-append l.services [] ∙ (e ∙ sym balancer), e' ∙ sym routine)
