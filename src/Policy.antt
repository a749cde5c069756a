-- ===== src/Policy.antt =====
-- Whether a tenant may send to these recipients: src/lib/outbound-policy.ts with the send policies
-- of src/repositories/tenant-policies.ts and the default of src/lib/self-serve-agent-policy.ts.
mod Tenant
mod Agent
mod Relax
mod Decision
unfoldable pub use Tenant.*
unfoldable pub use Agent.*
unfoldable pub use Relax.*
unfoldable pub use Decision.*
pub mod Laws
