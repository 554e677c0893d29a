-- ===== src/Promote.antt =====
-- dist/steps/step/oci/promote: the step that copies a built image to the tags of its version.
pub mod Version
pub mod Newest
pub mod RoundTrip
pub mod ImageRef
pub mod Pattern
pub mod Remote
pub mod Copies
pub mod Repository
pub mod Latest
pub mod Apart
pub mod Release
pub mod Promoted
