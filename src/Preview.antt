-- ===== src/Preview.antt =====
-- internal/preview: the host names of previews and the end of preview environments.
--
-- `strings.ToLower` of one code point is the parameter `to_lower`.
pub mod Naming
pub mod Slugs
pub mod Cleanup
pub mod Cleaned
pub mod Expired
mod Examples
