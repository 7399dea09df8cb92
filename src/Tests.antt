-- ===== src/Tests.antt =====
-- Runs of the definitions on concrete inputs, and the theorems at concrete inputs.
pub mod Ascii
mod Codecs
mod Text
mod Files
mod Cells
mod Pager
mod Recovery
mod Sorting
mod Log
mod Modes
