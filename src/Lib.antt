-- ===== src/Lib.antt =====
-- libMantids, a C++ toolkit for network services: a model of its parts with the theorems that make
-- them correct. Paths are those of the repository.
--
-- The parts and the files that model them:
-- - Memory/mdz_mem_vars (b_chunk.h, b_chunks.cpp): the chunked binary container B_Chunks.
--   Memory.Chunk has the operations of one chunk, Memory.Chunks the container and its operations
--   under the source's names in snake case (append2, displace2, truncate2, copy_out2,
--   get_pos_for_offset). A container that has moved to a file is reached through the record FsOps
--   of virtual operations.
-- - Memory/mdz_mem_vars (streamableobject.h and .cpp, streamablestring.cpp): objects that bytes
--   are streamed to. Memory.Streams has the status of a write, the virtual `write` as the record
--   StreamOps, and writeFullStream, whose fuel is the number of bytes: Memory.Streams.FullWrite
--   shows that it is enough for objects that take a byte or more in each call.
-- - Memory/mdz_mem_vars (b_base.cpp, b_mem.cpp, b_ref.cpp): what the binary containers have in
--   common. Memory.Container has the operations of B_Base over the record ContainerOps of the
--   virtual ones, and Memory.Container.ToStream those that hand bytes to a stream;
--   Memory.Container.Reading and Memory.Container.Searching state what a client relies on, as
--   IsReadable and IsSearchable, and Memory.Chunks.AsContainer shows that B_Chunks meets both,
--   with compare2 and findChar in Memory.Chunks.Search. Memory.Chunks.ToStream has copyTo2, which
--   hands the bytes to a stream. Memory.Linear has B_MEM (b_mem.cpp), a container over memory that
--   it does not own, and its laws, which hold up to 64 KB. Memory.Ref has B_Ref, a window on
--   another container, and its laws again, with its copyTo2 in Memory.Ref.Handing.
-- - Memory/mdz_mem_vars (subparser.cpp, parser.cpp): Memory.Subparser has the modes in which a
--   subparser gathers bytes, with the virtual parse() as an argument, and Memory.Parser the loop
--   that hands bytes to the current subparser. The loop is on fuel; the time to live of the code,
--   maxTTL, bounds its calls, so maxTTL + 2 rounds are enough, which Memory.Parser.Termination
--   shows for fair subparsers, and Protocols.Content.Fair for the content of a message.
-- - Protocols/mdz_proto_linerecv: Protocols.LineRecv has the protocol of lines, put together from
--   these parts; processParsedLine is an argument. Protocols.LineRecv.OverChunks puts the buffer
--   of the code, a B_Chunks, below it, by Memory.Chunks.AsBuffer.
-- - Helpers/mdz_hlp_functions (mem.cpp): Helpers.Mem has the comparisons of memory; a pointer is
--   the list of the bytes that may be read from it on.
-- - Helpers/mdz_hlp_functions (encoders.cpp): the encoders. Helpers.Base64 has toBase64 and
--   fromBase64, Helpers.Obfuscated toBase64Obf and fromBase64Obf over the numbers that their
--   generator returns, Helpers.Hex the hexadecimal digits, toHex and fromHex, Helpers.Url toURL
--   and fromURL.
-- - Helpers.Numbers has two functions of the C library, which toUInt32 and the sizes of chunks are
--   read and written with: strtoul to the base 16, and %X of printf.
-- - Protocols/mdz_proto_http (streamencoder_url.cpp, streamdecoder_url.cpp): streams that encode
--   and decode a URL in front of another stream. Protocols.UrlEncoder and Protocols.UrlDecoder
--   have their states and operations, over any StreamOps; Protocols.UrlCodec puts the two
--   together.
-- - Protocols/mdz_proto_http (common_content.cpp, common_content_chunked_subparser.cpp): the body of
--   a message. Protocols.Chunked has the stream that puts what is written to it into chunks, and
--   Protocols.Content the subparser that reads a body in each mode of transmission and streams one;
--   Receiver stands for the part of HTTPv1_Client behind the headers. outStream is a state of its
--   own, and none when a call of it does not return. Protocols.ChunkedCodec puts the writer and the
--   reader together, with a B_Chunks as the buffer, and Protocols.CountedContent follows a content
--   of known length from the headers on. What parseHeaders2TransmitionMode finds in the headers is
--   an argument of it.
-- - Auth/mdz_auth (ds_auth_reason.h, ds_auth_secret.h, accountsecret_validation.cpp, session.cpp):
--   Auth.Reason has the outcomes of an authentication, Auth.Secret the stored secrets and their
--   validation, Auth.Session the session of a user. The clock is an argument, `now`; the digests
--   of Helpers::Crypto, which OpenSSL calculates, are the record Crypto.
-- - Auth/mdz_auth (manager.cpp): Auth.Manager has the manager of accounts over the virtual
--   operations of the store, AccountsOps; Auth.Manager.Lockout follows wrong passwords up to the
--   limit of tries.
-- - Network/mdz_net_sockets (socket_streambase.cpp, socket_streambasewriter,
--   socket_streambasereader): Network.Stream has the loops of writeFull and readFull over
--   SocketOps, the virtual partialWrite and partialRead; their fuel is the number of bytes, since
--   each round that goes on moves one or more. Network.Framing has the numbers in network order
--   and the blocks and texts behind their length.
-- - Threads/mdz_thr_safecontainers (map.h): Threads.SafeMap has the operations of Safe::Map on its
--   entries; Threads.SafeMap.Readers has the threads that call them as a relation between states,
--   with the references that are open.
-- - Threads/mdz_thr_safecontainers (queue.h): Threads.Queue has what push and pop do while they
--   hold the lock; Threads.Queue.Waiting the threads that call them, with the two condition
--   variables, as a relation between states. wait_for answers that the time is over also behind a
--   wake-up, and the call then gives up; the state counts such calls.
--
-- Bytes are numbers below 256 and sizes numbers below 2 ^ 64; the sums and differences that can
-- wrap are written with their wrap (add64, sub64). A call that changes an object returns the new
-- object beside its result. Memory that runs out is not modelled: `new` throws there. A char is
-- signed, as on x86. A loop whose number of rounds the code does not bound has fuel, and `none` is
-- a call that does not return, or that reads past the end of what it is given.
--
-- Tests runs the definitions on concrete inputs, and applies the theorems to them.
--
-- Not modelled: sockets, threads' scheduling, files and databases as the operating system sees
-- them, and the libraries that the source calls; and of the code's own logic the headers, cookies
-- and dates of HTTP, the messages of MIME, the remote calls with their web server, the variables of
-- Memory/mdz_mem_vars that print and parse values, and the expressions over JSON.
pub mod Auth
pub mod Common
pub mod Helpers
pub mod Memory
pub mod Network
pub mod Protocols
pub mod Tests
pub mod Threads
