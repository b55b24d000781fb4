-- ===== src/Memory.antt =====
-- Memory/mdz_mem_vars: the binary containers and the streams.
pub mod Chunk
pub mod Chunks
pub mod Container
pub mod Linear
pub mod Ref
pub mod Subparser
pub mod Parser
pub mod Streams
