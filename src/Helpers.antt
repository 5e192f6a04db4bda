-- ===== src/Helpers.antt =====
-- vsphere_plugin_common/utils.py: the inputs of an operation, what goes to the log, and the
-- instances that relationships lead to.
pub mod Inputs
pub mod Integers
pub mod Logs
pub mod Related
mod Tests
