-- ===== src/Models.antt =====
-- backend/app/models.py: the enumerations, the transition graph and the rows of the tables.
-- An identifier (a UUID) is its 128-bit number. A float is the bit pattern of the double, since
-- the rows only store it, copy it and test it for null. A time is a count of seconds. Texts that
-- the code only stores or compares are strings.
mod Enums
mod Rows
pub mod Sets
unfoldable pub use Enums.*
pub use Rows.*
