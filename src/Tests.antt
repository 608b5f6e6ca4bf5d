-- ===== src/Tests.antt =====
-- Runs of the models on concrete inputs.
mod Boards
mod Networks
mod Stations
mod Hardware
mod Ports
mod Ethernet
mod Storage
