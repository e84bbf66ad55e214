-- ===== src/Tests.antt =====
-- The development at work on concrete data: a database in lists and a Redis in a function, a few
-- runs of the requests on them, and the theorems applied there.
pub mod Sorting
pub mod Tables
pub mod Strings
pub mod Data
pub mod Runs
pub mod Transitions
pub mod Requests
pub mod Creations
pub mod Reservations
pub mod Limits
pub mod Tokens
pub mod Availability
pub mod Jobs
pub mod Deliveries
pub mod Rounds
pub mod Migrations
pub mod Books
pub mod Sockets
pub mod Answered
pub mod Bodies
pub mod Pools
