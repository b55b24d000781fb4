-- ===== src/Network.antt =====
-- Network/mdz_net_sockets: what the sockets do with the bytes they are given.
pub mod Stream
pub mod Framing
