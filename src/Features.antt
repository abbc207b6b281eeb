-- ===== src/Features.antt =====
-- pipeline/feature_engineering.py: the features of one candidate. The settings are arguments, and
-- `from_iso` reads a date; floats are the values of the parameter `n`, with literals in hundredths.
pub mod Titles
pub mod Career
pub mod Skills
pub mod Signals
pub mod Fit
pub mod Row
pub mod Live
pub mod Zeros
pub mod Own
pub mod Gated
pub mod Evidence
mod Tests
