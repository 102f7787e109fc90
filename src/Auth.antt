-- ===== src/Auth.antt =====
-- Aggregates of pkg/auth/domain/entities, which embed a BaseEntity.
pub mod Aggregate
pub mod Authorization
pub mod Credential
pub mod Role
pub mod PasswordCredential
pub mod Policy
pub mod Agent
pub mod Account
pub mod Identity
pub mod Invite
pub mod InviteService
pub mod Rows
pub mod AuthSession
