-- ===== src/Registry.antt =====
-- src/kyraan/tools/registry.py: the declared tools, and the validation of the configuration at load.
-- The texts that the configuration compares with fixed words are data types, with a last constructor
-- for every other text; an absent key is `none`.
mod Defs
pub mod Load
pub mod Labels
pub use Defs.{
  Permission, auto, confirm, disabled, Effect, read, write, notify, ParamType, string, datetime,
  number, boolean, OnFailure, surface, fallback, silent, Param, ToolSpec, is_confirm, is_disabled,
  is_read, is_write,
}
