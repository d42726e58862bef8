-- ===== src/Datetime.antt =====
-- python-stdlib/datetime/datetime.py
pub mod Calendar
pub mod Timedelta
pub mod Zone
pub mod Iso
pub mod Date
pub mod Clock
pub mod Moment
mod Tests
