-- ===== src/Export.antt =====
-- internal/export: the bulk export.
pub mod Sitemap
pub mod Manifest
pub mod Torrent
pub mod Bundler
pub mod Handlers
