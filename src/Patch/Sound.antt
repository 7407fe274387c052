-- ===== src/Patch/Sound.antt =====
-- What `validate_patch` accepts is a patch of the grammar.
pub mod Bodies
pub mod Headers
pub mod Hunks
pub mod Sections
use hermes_local_hands.Base.{codes, ℕ, ◌+◌, ◌≤◌, ◌<◌, true}
use hermes_local_hands.Errors.{Result}
use hermes_local_hands.Runtime.{Runtime}
use hermes_local_hands.Patch.Grammar.{sections_lines}
