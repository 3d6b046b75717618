-- ===== src/Agent.antt =====
-- internal/agent: the agent that runs containers on a host.
pub mod Redactor
pub mod GpuWindow
