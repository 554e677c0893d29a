-- ===== src/Schema.antt =====
-- schema/v1: the step files as they are decoded, and their compilation to protobuf messages.
pub mod Model
pub mod Inputs
pub mod Outputs
pub mod Spec
pub mod Typed
pub mod ShortReference
pub mod References
pub mod Steps
