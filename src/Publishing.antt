-- ===== src/Publishing.antt =====
-- The release lifecycle: modules/publishing/publishing.service.ts, the app review of
-- modules/admin/merchant-app-review.service.ts, and their rows of the database.
pub mod Version
pub mod State
pub mod Candidate
pub mod Activation
pub mod Live
pub mod Allocation
pub mod Approval
pub mod Serving
pub mod Coherent
pub mod Snapshots
pub mod Served
mod Tests
