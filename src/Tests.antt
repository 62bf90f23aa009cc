-- ===== src/Tests.antt =====
-- The theorems of the library at concrete inputs.
mod Caches
mod Limits
mod Signatures
mod Windows
mod Payments
mod Serving
mod Documents
mod Bundles
mod Sorting
mod Commands
mod Pages
mod Seeds
mod Fetching
mod Signing
mod Views
mod Ceilings
mod Threads
