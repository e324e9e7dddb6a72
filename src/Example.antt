-- ===== src/Example.antt =====
-- Concrete instances of what the model takes as parameters, for the tests: a runtime and a generator.
pub mod Codec
pub mod Runtime
pub mod Generator
pub mod Configuration
pub mod Samples
pub mod Collection
