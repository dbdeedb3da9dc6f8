-- ===== src/Server/Ports.antt =====
-- The port of Server::listen.
use asyncgi.IoService.Defs.{next_io}
use asyncgi.Server.Listener.{make_connection_listener}
use asyncgi.Common.{ℕ, ◌<◌, ◌≡◌, refl, [], ◌∷◌, ◌++◌, arith, Bytes, text, ℤ, pos, negsuc}
use asyncgi.Server.Service.{
  Attempt, success, failure, error, Endpoint, tcp, ServerService, listen_tcp, server_listen_tcp,
  ◌>>=◌, ◌>>◌,
}

-- An int that is a port.
abbrev pub IsPort : ℤ → Type 0
IsPort (pos n) = n < 65536
IsPort (negsuc n) = ⊥

module _ (make_address : Bytes → Attempt Bytes) (bind : Endpoint → Attempt (Unit {0})) where
  -- Server::listen passes a port in [0, 65535] on: the precondition of ServerService::listen holds
  -- there, and what is bound is the address and that port, unchanged by the cast to 16 bits, and is
  -- added behind the TCP endpoints that were there; an error of make_address, or else of the bind, is
  -- the result where there is one.
  pub listen_in_range :
      (ip_address : Bytes) (n : ℕ) (s : ServerService)
      → n < 65536
      → server_listen_tcp make_address bind ip_address (pos n) s ≡ (do
        address ← make_address ip_address
        bind (tcp address n)
        success (record s {
          tcp_connection_processors = s.tcp_connection_processors ++ tcp address n ∷ [];
          io_service = (next_io s.io_service).1;
        }))
  unfolding server_listen_tcp listen_tcp make_connection_listener
  listen_in_range ip_address n s h = ground arith

  -- For any other port Server::listen throws its error, and nothing is parsed, bound or added.
  pub listen_out_of_range :
      (ip_address : Bytes) (port : ℤ) (s : ServerService)
      → ¬ IsPort port
      → server_listen_tcp make_address bind ip_address port s
        ≡ failure (error (text "port's value must be in range [0, 65535]"))
  unfolding server_listen_tcp
  listen_out_of_range ip_address (pos n) s h = ground arith
  listen_out_of_range ip_address (negsuc n) s h = refl
