-- ===== src/Access.antt =====
-- Who may do what: roles and permissions, the guards of a request, and location scopes
-- (backend/src/common/permissions, guards and organization).
pub mod Permissions
pub mod Roles
pub mod Scope
pub mod Guards
