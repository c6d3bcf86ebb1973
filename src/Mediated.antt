-- ===== src/Mediated.antt =====
-- The state machines of mediated transfers: src/gatecoin/transfer/mediated_transfer.
pub mod Waiting
pub mod Channels
pub mod Target
pub mod Mediator
pub mod Initiator
pub mod Tests
pub mod MediatorTests
pub mod InitiatorTests
