-- ===== src/Tests.antt =====
-- Runs of the model at concrete inputs, and each theorem at one of them.
mod Transfers
mod Receiving
mod Frames
mod Codes
mod Catalogue
mod Tables
mod Handshakes
mod Sessions
mod Discovery
mod Android
