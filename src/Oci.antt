-- ===== src/Oci.antt =====
-- dist/steps/step/oci: what an image is built from, and which image of an index is fetched.
pub mod Artifacts
pub mod BuildInputs
pub mod Manifests
pub mod Partition
pub mod Preferred
pub mod Unique
pub mod Releaser
pub mod Released
pub mod World
pub mod Layers
pub mod Pull
pub mod FetchInputs
pub mod Keychain
pub mod Archives
pub mod ArtifactFiles
pub mod Inside
pub mod Reused
pub mod Pulled
