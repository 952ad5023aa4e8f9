-- ===== src/Database.antt =====
-- src/domain_processing_service/database.py: whether the engine and the session maker of SQLAlchemy
-- are there, and the lifecycle around them; app.py, the database in the lifespan and in
-- /health/ready. `answers` says that the statement SELECT 1 goes through.
pub mod Lifecycle
use domain_process_e2e.Prelude.{ℕ, Bool, true, false, if◌then◌else◌, Option}
use domain_process_e2e.App.{App, startup, end_lifespan, health_ready}
use domain_process_e2e.Shutdown.{Drain}

pub record Database : Type 0 where
  pub engine : Bool
  pub session_maker : Bool

-- __init__
abbrev pub new_database : Database
new_database = record { engine = true; session_maker = true }

-- _ping, with the property `engine`, which raises when there is none: whether it returns.
unfoldable pub ping : Bool → Database → Bool
ping answers db = if db.engine then answers else false

-- connect: whether it returns; an exception of the ping is logged and raised again.
unfoldable pub connect_database : Bool → Database → Bool
unfolding ping
connect_database answers db = ping answers db

unfoldable pub close_database : Database → Database
close_database db = if db.engine then record { engine = false; session_maker = false } else db

-- is_ready, in which an exception of the ping is the answer False
unfoldable pub is_ready : Bool → Database → Bool
unfolding ping
is_ready answers db = if db.engine then ping answers db else false

-- database_lifespan around a body that leaves the database so, returning or raising: whether all of
-- it returns, and the database.
unfoldable pub database_lifespan : Bool → (Database → Bool × Database) → Database → Bool × Database
unfolding connect_database close_database
database_lifespan answers body db =
    let (returns, after) = body db in
    if connect_database answers db then (returns, close_database after) else (false, db)

-- The lifespan of the application up to the yield, with its database; `redis` is the ping of the
-- lock manager.
unfoldable pub open_app : Bool → Bool → App → Database → Option App
unfolding connect_database startup
open_app answers redis app db = startup (connect_database answers db) redis app

-- and after it: the shutdown of the coordinator closes the database that it is given.
unfoldable pub close_app : Drain → App → Database → App × Database
unfolding end_lifespan close_database
close_app drain app db = (end_lifespan drain app, close_database db)

-- GET /health/ready: the status
unfoldable pub get_ready : Bool → Database → ℕ
unfolding is_ready health_ready
get_ready answers db = health_ready (is_ready answers db)
