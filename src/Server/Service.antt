-- ===== src/Server/Service.antt =====
-- ServerService, ConnectionListenerFactory and Server. What the operating system and asio do is an
-- argument: `make_address` parses an address or throws, and `bind` is whether the acceptor of an
-- endpoint can be made, or what the exception says.
use asyncgi.IoService.Defs.{IoService}
use asyncgi.Common.{
  ℕ, ◌-◌, ◌%◌, ◌^◌, Bool, true, false, not, ◌&&◌, ◌||◌, List, [], ◌∷◌, ◌++◌, ltb, leb, Bytes, text,
  ℤ, pos, negsuc,
}
use asyncgi.Server.Listener.{make_connection_listener}

pub data ListenError : Type 0 where
  -- asyncgi::Error
  error : Bytes → ListenError
  -- a failed sfun_precondition
  precondition : ListenError
  -- an exception of asio
  system_error : Bytes → ListenError

pub data Attempt {ℓ} (A : Type ℓ) : Type ℓ where
  success : A → Attempt A
  failure : ListenError → Attempt A

infixl 5 ◌>>=◌ ◌>>◌
abbrev pub ◌>>=◌ {ℓ κ} : {A : Type ℓ} {B : Type κ} → Attempt A → (A → Attempt B) → Attempt B
failure e >>= next = failure e
success a >>= next = next a

abbrev pub ◌>>◌ {ℓ} : {B : Type ℓ} → Attempt (Unit {0}) → Attempt B → Attempt B
first >> second = first >>= λ _. second

abbrev pub guard : Bool → ListenError → Attempt (Unit {0})
guard false thrown = failure thrown
guard true thrown = success tt

pub data Endpoint : Type 0 where
  local : Bytes → Endpoint
  -- an address, and a port of 16 bits
  tcp : Bytes → ℕ → Endpoint

pub data SysCall : Type 0 where
  umask : ℕ → SysCall
  chmod : Bytes → ℕ → SysCall
  unlink : Bytes → SysCall

-- The listeners, each by its endpoint; what one of them does later is in the module Listener. They
-- share the IOService.
pub record ServerService : Type 0 where
  pub io_service : IoService
  pub local_connection_processors : List Endpoint
  pub tcp_connection_processors : List Endpoint
  pub calls : List SysCall

-- Comparisons of an int.
abbrev pub le_int : ℕ → ℤ → Bool
le_int a (pos n) = leb a n
le_int a (negsuc n) = false

abbrev pub gt_int : ℤ → ℕ → Bool
gt_int (pos n) b = ltb b n
gt_int (negsuc n) b = false

abbrev pub lt_int : ℤ → ℕ → Bool
lt_int (pos n) b = ltb n b
lt_int (negsuc n) b = true

-- static_cast<std::uint16_t>: the value modulo 2 ^ 16.
abbrev pub to_uint16 : ℤ → ℕ
to_uint16 (pos n) = n % 2 ^ 16
to_uint16 (negsuc n) = (2 ^ 16 - 1) - n % 2 ^ 16

unfoldable pub init_unix_domain_socket : Bytes → ServerService → ServerService
init_unix_domain_socket path s = record s {
  calls = s.calls ++ umask 0 ∷ chmod path 0o777 ∷ unlink path ∷ [];
}

module _ (make_address : Bytes → Attempt Bytes) (bind : Endpoint → Attempt (Unit {0})) where
  -- ConnectionListenerFactory::makeConnectionListener: the acceptor is made before the listener.
  unfoldable pub make_listener : Endpoint → ServerService → Attempt (Endpoint × IoService)
  make_listener endpoint s = do
    bind endpoint
    success (endpoint, (make_connection_listener s.io_service).io_service)

  unfoldable pub listen_local : Bytes → ServerService → Attempt ServerService
  unfolding init_unix_domain_socket make_listener
  listen_local path s = do
    let s' = init_unix_domain_socket path s
    made ← make_listener (local path) s'
    success (record s' {
      local_connection_processors = s'.local_connection_processors ++ made.0 ∷ [];
      io_service = made.1;
    })

  unfoldable pub listen_tcp : Bytes → ℤ → ServerService → Attempt ServerService
  unfolding make_listener
  listen_tcp ip_address port s = do
    guard (le_int 0 port && lt_int port 65536) precondition
    address ← make_address ip_address
    made ← make_listener (tcp address (to_uint16 port)) s
    success (record s {
      tcp_connection_processors = s.tcp_connection_processors ++ made.0 ∷ [];
      io_service = made.1;
    })

  -- Server::listen
  unfoldable pub server_listen_tcp : Bytes → ℤ → ServerService → Attempt ServerService
  server_listen_tcp ip_address port s = do
    guard (not (lt_int port 0 || gt_int port 65535))
        (error (text "port's value must be in range [0, 65535]"))
    listen_tcp ip_address port s
