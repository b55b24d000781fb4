-- ===== src/Tests.antt =====
-- Runs of the models on concrete inputs, and the theorems at inputs that meet their hypotheses.
mod Containers
mod Encoders
mod Streams
mod Accounts
mod Sharing
mod Buffers
mod Lines
mod Sockets
mod Managers
mod Queues
mod Contents
