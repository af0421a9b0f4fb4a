-- ===== src/Model.antt =====
-- The tables of models.py, and the database that the services read and write.
mod Rows
mod Database
unfoldable pub use Rows.*
unfoldable pub use Database.*
