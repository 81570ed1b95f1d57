-- ===== src/Haproxy/Text.antt =====
-- plan.go: `Settings` and the text of the configuration, with `net.JoinHostPort`.
use egress_manager.Base.{
  ℕ, ◌*◌, ◌/◌, ◌%◌, ◌^◌, Bool, true, ◌&&◌, ◌||◌, not, Option, none, some, List, [], ◌∷◌, ◌++◌, ltb,
  ◌==◌, if◌then◌else◌, Bytes, lit, bytes_eq, has_prefix, any,
}
use egress_manager.Inventory.{AddrText}
use egress_manager.Domain.Endpoint.{Endpoint}
use egress_manager.Domain.Haproxy.{
  BalanceAlgorithm, balance_round_robin, balance_least_conn, other_balance, HaproxyFrontend,
  HaproxyBackend,
}
use egress_manager.Nat.Render.{digits}

abbrev pub maximum_frontends : ℕ
maximum_frontends = 128

abbrev pub maximum_candidate : ℕ
maximum_candidate = 96 * 1024

-- The decimal text of a number of at most 64 bits
abbrev pub number : ℕ → Bytes
number n = digits 20 n

abbrev pub has_byte : ℕ → Bytes → Bool
has_byte b text = any (λ c. c == b) text

-- `net.JoinHostPort`
unfoldable pub join_host_port : Bytes → Bytes → Bytes
join_host_port host port =
    if has_byte b':' host
    then lit "[" ++ (host ++ (lit "]:" ++ port))
    else host ++ (lit ":" ++ port)

-- `duration` of nanoseconds
unfoldable pub duration : ℕ → Bytes
duration value =
    if value % 10 ^ 9 == 0
    then number (value / 10 ^ 9) ++ lit "s"
    else number (value / 10 ^ 6) ++ lit "ms"

abbrev pub algorithm_text : BalanceAlgorithm → Bytes
algorithm_text balance_round_robin = lit "roundrobin"
algorithm_text balance_least_conn = lit "leastconn"
algorithm_text (other_balance s) = s

unfoldable pub find_backend : Bytes → List HaproxyBackend → Option HaproxyBackend
find_backend id [] = none
find_backend id (b ∷ backends) =
    let rest = find_backend id backends in if bytes_eq b.id id then some b else rest

-- A time-out is a number of nanoseconds, 0 also for the negative ones.
pub record Settings : Type 0 where
  pub runtime_socket : Bytes
  pub pid_file : Bytes
  pub max_connections : ℕ
  pub connect_timeout : ℕ
  pub client_timeout : ℕ
  pub server_timeout : ℕ
  pub protected_ports : List ℕ

abbrev has_space : Bytes → Bool
has_space text = has_byte 10 text || has_byte 13 text || has_byte 9 text || has_byte 32 text

abbrev path_is_safe : Bytes → Bool
path_is_safe path = has_prefix path (lit "/") && not (has_space path)

abbrev timeout_is_valid : ℕ → Bool
timeout_is_valid t = not (ltb t 1000000 || ltb 86400000000000 t)

-- The loop over the protected ports; the first argument holds those seen.
unfoldable pub ports_valid : List ℕ → List ℕ → Bool
ports_valid seen [] = true
ports_valid seen (p ∷ ps) =
    not (p == 0) && not (any (λ q. q == p) seen) && ports_valid (p ∷ seen) ps

-- `Settings.validate`: whether its error is nil.
unfoldable pub settings_valid : Settings → Bool
settings_valid s =
    path_is_safe s.runtime_socket
    && path_is_safe s.pid_file
    && not (ltb s.max_connections 1 || ltb 1000000 s.max_connections)
    && timeout_is_valid s.connect_timeout
    && timeout_is_valid s.client_timeout
    && timeout_is_valid s.server_timeout
    && ports_valid [] s.protected_ports

module _ (text : AddrText) where
  unfoldable pub endpoint_string : Endpoint → Bytes
  endpoint_string endpoint = join_host_port endpoint.host (number endpoint.port)

  unfoldable pub server_line : HaproxyBackend → Bytes
  server_line b =
      lit "  server egm_srv_"
      ++ (b.id
          ++ (lit " "
              ++ (endpoint_string b.server
                  ++ (lit " weight "
                      ++ (number b.weight
                          ++ ((if b.health_check then lit " check" else [])
                              ++ ((if b.backup then lit " backup" else [])
                                  ++ ((if not b.enabled then lit " disabled" else [])
                                      ++ lit "\n"))))))))

  -- A missing backend would be the zero value; `BuildPlan` has found every one.
  unfoldable pub server_lines : List HaproxyBackend → List Bytes → Bytes
  server_lines backends [] = []
  server_lines backends (id ∷ ids) =
      let rest = server_lines backends ids in
      elim (find_backend id backends) [ none ↦ [] | some b ↦ server_line b ] ++ rest

  unfoldable pub frontend_text : List HaproxyBackend → HaproxyFrontend → Bytes
  frontend_text backends f =
      lit "frontend egm_fe_"
      ++ (f.id
          ++ (lit "\n  bind "
              ++ (join_host_port (text.addr_string f.bind) (number f.port)
                  ++ (lit "\n  default_backend egm_pool_"
                      ++ (f.id
                          ++ (lit "\n\nbackend egm_pool_"
                              ++ (f.id
                                  ++ (lit "\n  balance "
                                      ++ (algorithm_text f.algorithm
                                          ++ (lit "\n"
                                              ++ (server_lines backends f.backend_ids
                                                  ++ lit "\n")))))))))))

  unfoldable pub frontend_texts : List HaproxyBackend → List HaproxyFrontend → Bytes
  frontend_texts backends [] = []
  frontend_texts backends (f ∷ frontends) =
      let rest = frontend_texts backends frontends in
      if f.enabled then frontend_text backends f ++ rest else rest

  -- `render`
  unfoldable pub render_haproxy : Settings → List HaproxyFrontend → List HaproxyBackend → Bytes
  render_haproxy s frontends backends =
      lit "# Egress Manager owned HAProxy configuration\n"
      ++ (lit "global\n  master-worker\n  maxconn "
          ++ (number s.max_connections
              ++ (lit "\n  stats socket "
                  ++ (s.runtime_socket
                      ++ (lit " mode 660 level operator\n\ndefaults\n  mode tcp\n  timeout connect "
                          ++ (duration s.connect_timeout
                              ++ (lit "\n  timeout client "
                                  ++ (duration s.client_timeout
                                      ++ (lit "\n  timeout server "
                                          ++ (duration s.server_timeout
                                              ++ (lit "\n\n"
                                                  ++ (frontend_texts backends frontends
                                                      ++ (lit
                                                            "# pidfile is supplied by the service command: "
                                                          ++ (s.pid_file ++ lit "\n"))))))))))))))
