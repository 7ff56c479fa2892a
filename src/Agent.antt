-- ===== src/Agent.antt =====
-- The providers behind the agent sessions (src/runtime/agent: health.py, fake.py, azure_openai.py and
-- openai_compatible.py).
pub mod Health
pub mod Ready
pub mod Runner
pub mod Azure
pub mod Build
