-- ===== src/Reminders.antt =====
-- src/kyraan/triggers/store.py and the delivery of reminders in src/kyraan/triggers/scheduler.py.
mod Defs
pub mod Store
pub mod Fire
pub mod Manage
pub use Defs.{Stamp, blank, moment, malformed, Reminder}
