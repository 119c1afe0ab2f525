-- ===== src/Provider.antt =====
-- provider-spi/src: what the lifecycle asks of the runtimes that run a session.
pub mod Capability
pub mod Assurance
pub mod Error
pub mod Descriptor
pub mod Requests
