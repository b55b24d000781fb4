-- ===== src/Protocols.antt =====
-- Protocols/mdz_proto_http: the streams that encode and decode URLs, and the content of messages;
-- Protocols/mdz_proto_linerecv: lines.
pub mod UrlDecoder
pub mod UrlEncoder
pub mod LineRecv
pub mod UrlCodec
pub mod Chunked
pub mod Content
pub mod ChunkedCodec
pub mod CountedContent
