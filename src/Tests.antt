-- ===== src/Tests.antt =====
-- Runs of the definitions, and the theorems at concrete inputs.
mod Samples
mod Parsing
mod Choosing
mod Querying
mod Sharing
mod Connecting
mod Emitting
mod Searching
mod Polling
mod Numbering
mod Delivering
mod Browsing
mod Addressing
mod Backing
mod Posting
mod Pointing
mod Scripting
mod Answering
mod Locating
mod Drawing
mod Holding
mod Publishing
