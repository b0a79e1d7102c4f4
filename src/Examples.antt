-- ===== src/Examples.antt =====
-- The theorems at concrete inputs: a small table of events and what is done with it.
mod Data
mod Chains
mod Verified
mod Others
mod Uploads
mod Erased
mod Configured
mod Flowing
