-- ===== src/Qualifier.antt =====
-- modules/qualifier.py: reading the answers of the language model.
pub mod Payload
pub mod Recovery
pub mod Prompt
pub mod Qualify
pub mod Batch
mod Tests
