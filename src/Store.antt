-- ===== src/Store.antt =====
-- core/alteriom_hil/jobstore.py: what the farm keeps in one SQLite file. A table is the list of its
-- rows, oldest first; a method is a function of the tables that it reads and writes, and the time
-- that `utcnow()` gives is its argument. Timestamps are compared and copied only: they are numbers.
-- A JSON object is a dictionary whose values are kept as text.
pub mod Table
pub mod Jobs
pub mod Queue
pub mod Commands
pub mod Signins
pub mod Holds
pub mod Enrollments
pub mod Accounts
pub mod Events
mod Tests
