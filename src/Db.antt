-- ===== src/Db.antt =====
-- The tables of the database and the rows they hold.
pub mod Models
