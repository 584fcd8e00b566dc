-- ===== src/Examples.antt =====
-- The theorems at concrete packets, transfers and requests.
mod Packets
mod Transfers
mod Connection
mod Races
mod Rows
mod Sessions
mod Services
mod Requester
mod Registry
