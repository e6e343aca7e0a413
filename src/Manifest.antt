-- ===== src/Manifest.antt =====
-- runtime_manifest_v2.go: the publisher-signed descriptor of the runtime artifact.
pub mod Claims
pub mod Encoding
pub mod Patterns
pub mod Payload
pub mod Checksums
pub mod Validate
pub mod Verify
pub mod Parse
pub mod Keyring
pub mod Tests
