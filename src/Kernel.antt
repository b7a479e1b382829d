-- ===== src/Kernel.antt =====
-- src/kyraan/control_plane/kernel.py: the gate that every skill call, tool call and proactive send passes.
pub mod Context
pub mod Viewer
pub mod Tool
pub mod Skill
pub mod Proactive
