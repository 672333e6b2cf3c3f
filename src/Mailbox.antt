-- ===== src/Mailbox.antt =====
-- The review of the risks that were found in mails: mailbox/extraction.py, from a candidate to a risk.
pub mod Candidates
pub mod Reviewed
mod Tests
