-- ===== src/Provisioning/Polling.antt =====
-- provisioning/internal/polling_machine.py and request_response_provider.py: the registration
-- process. `Defs` has the state and the table of transitions, `Handlers` what a
-- transition runs, `Events` the callbacks of the pipeline and of the timers.
pub mod Defs
pub mod Handlers
pub mod Events
pub mod Lifecycle
pub mod Observed
pub mod Forward
pub mod Retry
mod Tests
