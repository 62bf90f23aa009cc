-- ===== src/Negotiate.antt =====
-- internal/negotiate/negotiate.go: which view a client asks for, and the stripped view.
pub mod Accept
pub mod Strip
