-- ===== src/Tests.antt =====
-- Tests: each theorem at a concrete input, and runs of the definitions.
mod Streams
mod Scans
mod Toolbars
mod Clients
mod Pages
mod Logs
mod Dialogs
mod Tables
mod Cards
