-- ===== src/Caches.antt =====
-- pkg/cache and dist/step_finder.go: the fetchers that steps are loaded through.
pub mod Dist
pub mod Git
pub mod Checkout
pub mod WorkDir
