-- ===== src/Rest/Server.antt =====
-- internal/rest/rest.go: the HTTP server around the router, with or without TLS. net/http and autocert are the
-- library's: a server is where it listens, and its timeouts.
use text.Mathlib.Text.{◌==◌ as str_eq}
use hermeshooks.Prelude.{
  ℕ, ◌*◌, ◌<◌, ◌≡◌, String, Bool, Option, none, some, arith, ◌==◌, if◌then◌else◌,
}

-- A duration is in nanoseconds. `has_handler`: Handler is not nil.
pub record ServerConfig : Type 0 where
  pub addr : String
  pub write_timeout : ℕ
  pub read_timeout : ℕ
  pub idle_timeout : ℕ
  pub has_handler : Bool
  pub domain : String

pub record Server : Type 0 where
  pub addr : String
  pub write_timeout : ℕ
  pub read_timeout : ℕ
  pub idle_timeout : ℕ
  pub domain : String

-- Where a server listens: at an address, or with certificates for a domain.
pub data Listener : Type 0 where
  plain : String → Listener
  tls : String → Listener

abbrev second : ℕ
second = 1_000_000_000

abbrev or_default : ℕ → ℕ → ℕ
or_default d n = if n == 0 then d else n

abbrev domain_of : ServerConfig → String
domain_of cfg = if str_eq cfg.domain "" then "localhost" else cfg.domain

abbrev bind_addr : ServerConfig → String
bind_addr cfg =
    if str_eq (domain_of cfg) "localhost"
    then if str_eq cfg.addr "" then "127.0.0.1:8000" else cfg.addr
    else ":443"

-- `none` is the error "please provide a Handler".
unfoldable pub new : ServerConfig → Option Server
new cfg =
    if cfg.has_handler
    then some (record {
      addr = bind_addr cfg;
      write_timeout = or_default (10 * second) cfg.write_timeout;
      read_timeout = or_default (5 * second) cfg.read_timeout;
      idle_timeout = or_default (120 * second) cfg.idle_timeout;
      domain = domain_of cfg;
    })
    else none

-- The listener that Run serves on.
unfoldable pub run_on : Server → Listener
run_on s = if str_eq s.domain "localhost" then plain s.addr else tls s.domain

-- A server that New has made waits for no client for ever.
new-times_out :
    (cfg : ServerConfig) {s : Server}
    → new cfg ≡ some s
    → (0 < s.write_timeout) × (0 < s.read_timeout) × (0 < s.idle_timeout)
unfolding new
new-times_out cfg e = ground arith
