-- ===== src/Gmail.antt =====
-- src/inboxlume/providers/gmail_quarantine.py and gmail_finalizer.py: the executors that change a
-- Gmail mailbox, over the transports that refuse every other request.
pub mod Json
pub mod Session
pub mod Transport
pub mod Labels
pub mod Executors
pub mod Finalizer
pub mod Triples
pub mod Steps
pub mod Permitted
pub mod Requests
pub mod Labelling
pub mod Additions
pub mod Moves
pub mod Finals
pub mod Matching
pub mod Finalization
