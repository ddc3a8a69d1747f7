-- ===== src/Access.antt =====
-- Roles, permissions, invites and quotas: modules/rbac, common/guards, the platform role guard and the
-- invites of modules/admin, and the API quotas of modules/platform-admin.

pub mod Rbac
pub mod Quota
pub mod Platform
pub mod Invites
mod Tests
