-- ===== src/Storage/Connect.antt =====
-- New and Close of internal/storage/db.go: how the pool of connections is set up. The drivers are parameters:
-- `parse_config` gives the error, if any, of a connection string.
use hermeshooks.Prelude.{ℕ, String, Bool, true, false, Option, none, some, if◌then◌else◌}

pub record DbConfig : Type 0 where
  pub dsn : String
  pub max_open_conns : ℕ
  pub debug : Bool
  pub pg_driver : Bool

-- pgdriver, or pgx with its simple protocol or without.
pub data Driver : Type 0 where
  pgdriver : String → Driver
  pgx : String → Bool → Driver

-- `max_idle` is what the last call of SetMaxIdleConns has set, `max_open` what SetMaxOpenConns has; with no
-- call of it there is no limit. `hooked`: the debug hook logs the queries.
pub record Db : Type 0 where
  pub driver : Driver
  pub max_idle : Option ℕ
  pub max_open : Option ℕ
  pub hooked : Bool

pub data Opened : Type 0 where
  opened : Db → Opened
  refused : String → Opened

abbrev set_max_idle_conns : ℕ → Db → Db
set_max_idle_conns n db = record db { max_idle = some n }

-- sql.OpenDB
abbrev open_db : Driver → Db
open_db driver = record { driver = driver; max_idle = none; max_open = none; hooked = false }

configure : DbConfig → Db → Db
configure cfg db =
    let db' = set_max_idle_conns cfg.max_open_conns (set_max_idle_conns cfg.max_open_conns db) in
    if cfg.debug then record db' { hooked = true } else db'

unfoldable pub new : (String → Option String) → DbConfig → Opened
unfolding configure
new parse_config cfg =
    if cfg.pg_driver
    then opened (configure cfg (open_db (pgdriver cfg.dsn)))
    else elim (parse_config cfg.dsn) [
      | some e ↦ refused e
      | none ↦ opened (configure cfg (open_db (pgx cfg.dsn true)))
    ]

-- Close, with the error of the pool, if any.
pub close : Option String → Option String
close none = none
close (some e) = some e
