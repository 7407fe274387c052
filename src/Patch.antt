-- ===== src/Patch.antt =====
-- src/hermes_local_hands/gitops.py, `validate_patch`: which patches a remote client may propose.
pub mod Headers
pub mod Hunks
pub mod Validate
pub mod Grammar
pub mod Sound
pub mod Ends
