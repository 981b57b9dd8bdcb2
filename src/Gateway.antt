-- ===== src/Gateway.antt =====
-- The tool gateway: packs/tool_gateway. Every external capability call is recorded, judged by the
-- policy, executed once it is approved, and its output cleaned before it is stored.
pub mod Types
pub mod Policy
pub mod Views
pub mod Approval
pub mod Execution
pub mod Behaviors
pub mod LlmTools
pub mod Envelope
pub mod Lifecycle
pub mod Registration
pub mod Scopes
pub mod Examples
