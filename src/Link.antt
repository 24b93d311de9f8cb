-- ===== src/Link.antt =====
-- pkg/devbuilder/link.go: what the builder knows of a link, by its two ends.
pub mod Ends
pub mod Igp
pub mod Memory
pub mod Bfd
pub mod Sharing
pub mod Reading
pub mod Effect
