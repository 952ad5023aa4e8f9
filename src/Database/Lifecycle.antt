-- ===== src/Database/Lifecycle.antt =====
-- The database is there from the start of the application to the end of its shutdown.
use domain_process_e2e.Prelude.{
  Bool, true, false, if◌then◌else◌, ◌≡◌, refl, sym, ◌∙◌, inl, inr, Bool-cases,
}
use domain_process_e2e.App.{App}
use domain_process_e2e.Database.{Database, connect_database, close_database, database_lifespan}

-- There is a session maker exactly when there is an engine.
abbrev pub IsPaired : Database → Type 0
IsPaired db = db.engine ≡ db.session_maker

abbrev pub IsClosed : Database → Type 0
IsClosed db = (db.engine ≡ false) × (db.session_maker ≡ false)

if-IsClosed :
    (b : Bool) (db : Database)
    → db.engine ≡ b
    → IsPaired db
    → IsClosed (if b then record { engine = false; session_maker = false } else db)
if-IsClosed true db e h = (refl, refl)
if-IsClosed false db e h = (e, sym h ∙ e)

close_database-IsClosed : (db : Database) → IsPaired db → IsClosed (close_database db)
unfolding close_database
close_database-IsClosed db h = if-IsClosed db.engine db refl h

-- If the database answers, the body of database_lifespan is run, and however it ends, the lifespan
-- ends so, with neither engine nor session maker left; if not, it raises, and the database is as it
-- was.
pub database_lifespan-IsClosed :
    (answers : Bool) (body : Database → Bool × Database) (db : Database)
    → ((db : Database) → IsPaired db → IsPaired (body db).1)
    → IsPaired db
    → let (returns, after) = database_lifespan answers body db in
      if connect_database answers db
      then (returns ≡ (body db).0) × IsClosed after
      else (returns ≡ false) × (after ≡ db)
unfolding database_lifespan
database_lifespan-IsClosed answers body db keeps h =
    elim (Bool-cases (connect_database answers db)) [
      | inl e ↦ rw e (refl, close_database-IsClosed (body db).1 (keeps db h))
      | inr e ↦ rw e (refl, refl)
    ]
