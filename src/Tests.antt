-- ===== src/Tests.antt =====
-- Runs of the model on test_resources/short.mmb, and the theorems at concrete inputs.
mod Short
mod Apart
mod Runs
mod Examples
mod Unused
mod Modus
mod Formats
mod Spec
mod Parallel
mod Files
mod ShortSpec
mod Whole
mod Library
mod Theorem
