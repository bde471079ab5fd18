-- ===== src/Lib.antt =====
-- FProto: a messaging protocol with its servers. This library models the parts of its Go code that
-- decide what happens to sessions, connections, messages and keys, and proves what they promise.
--
-- How the parts interact. A client's message reaches the dispatcher, which chooses a Kafka topic and
-- writes the message to the table outbox. The relay polls that table and publishes its rows. The sync
-- service consumes the topics, asks Redis whether it has seen the message, and writes it to the table
-- inbox of the recipient. Sessions, the pool of connections, the framing of streams and the
-- encryption of packets are libraries in proto-core that the services use.
--
-- The files, with the code that each is about:
--   Base: Boolean tests, lists, results of fallible functions, bytes, and what the code uses of
--     encoding/hex and encoding/binary.
--   Sql: how a statement sent to PostgreSQL ends. Each call has an outcome: it ran, it did not run, or
--     it ran and the answer was lost; the last two are errors to the client.
--   Message: the structs of server/internal/protocol/gen/fproto/v1 that the services read.
--   Session: proto-core/session. Machine has the table and Transition of machine.go, Histories lists
--     of events, Stores the two stores (redis_store.go, pg_store.go), Manager
--     the methods of manager.go over them, and Service the gRPC methods of
--     server/internal/sessiongrpc/server.go.
--   Transport: proto-core/transport. Pool is pool.go (NewConnPool, Add, Remove, UpdateSeq, Best, Count,
--     All), Framing is ReadMessage and WriteMessage of quic.go and of sdk/go/transport.go, Streams is
--     grpc_transport.go, Dialing how connections of websocket.go and quic.go come about and end.
--   Crypto: proto-core/crypto (aead.go, rekey.go, zeroize.go) and server/internal/cryptogrpc/server.go:
--     Encrypt, Decrypt and Rekey in Service, InitiateHandshake and ProcessHandshake in Handshakes.
--   Noise: proto-core/crypto/noise.go, keypair.go and sdk/go/crypto.go. Conversations has code that reads
--     and writes messages as a tree, Handshakes the handshakes, Agreement what two ends then share, and
--     OpenLibrary a library for examples.
--   SenderKeys: server/internal/senderkeys. Keys is ratchet.go, keypair.go, distribution.go and
--     rotation.go, Messages is encrypt.go and decrypt.go, Cache is store.go; Streams is about sequences
--     of messages.
--   Kafka: server/internal/kafka. Topics and Producer are topics.go and producer.go, Headers is
--     tracing.go, Consumer is consumer.go and config.go; Claims and Redelivery are about histories of sessions. A
--     send has an outcome too.
--   Dispatcher: server/internal/dispatcher. Router is router.go, Dispatch is dispatcher.go and
--     grpc_server.go.
--   Outbox: server/internal/outbox. Store is the table and each statement, Relay is poll and what it
--     calls, Running the loop that polls; Delivery, Progress, Drain and Running/Drained are about
--     histories, one entry, one whole poll, and the loop.
--   Inbox: server/internal/inbox, the table and each statement.
--   Groups: server/internal/groups (the tables and statements, in Store) and the handler of
--     server/internal/commands/handler.go in Commands, with service.go there in Service; Replays is
--     about sessions one after the other.
--   Sync: server/internal/sync. Dedup is dedup.go, Handler is handler.go, Offline is one page of
--     offline.go and Paging the loop over the pages, Service is service.go; Handler/Loss,
--     Replays and Handler/Routes are about repeated deliveries, sessions one after the other, and the
--     topics of the dispatcher. A mark in Redis has a time that it lasts, which waits between
--     deliveries use up.
--   Media: server/internal/media. Store is model.go and store.go, Objects is s3.go, Uploads is
--     service.go and grpc_server.go; Histories is about sequences of calls.
--   Gateway: handleConn of server/cmd/gateway/main.go; Replies is about what its client reads,
--     Stored about what its messages leave in the outbox. EchoServer: handleConnection of
--     server/cmd/echo-server/main.go.
--   Sdk: sdk/go. Client is client.go, Reconnect is reconnect.go, Dialing is transport.go.
--   Apps: the programs of examples/, starters/go and starters/interop, which use proto-core. Frames
--     has the frames that they share (messages.go of each), FinanceOrders, Notifications, GameRealtime and IotTelemetry
--     the server of each example, Starter both loops of starters/go/main.go, and Interop the
--     loop of starters/interop/server.go. Fills, Genuine,
--     Broadcasts, Subscriptions, World, Scores, Deaths, Histories, Kept and Recent are about whole
--     connections and what they leave; where connections share a state, what the others do to it
--     between two messages is an argument, or an event of a list.
--   The modules Examples, and Session/Calls, hold concrete runs.
--
-- State and operations. A table is a list of rows in the order of their ids, with the sequence and the
-- clock; a statement is a function on it, translated from the SQL text, constraints included. A map
-- whose order Go leaves open is a list in the order of its visit, and what is stated holds of every
-- order. A method that changes shared state takes the state and returns it. Byte slices are lists of
-- numbers; where the code tells nil from empty they are options. Lengths on the wire wrap at 2 ^ 32.
--
-- Two loops run on fuel, where `none` says that it ran out: the one over the pages of missed messages
-- (Sync/Paging), for which two more than the rows of the table are enough, and the one that reconnects
-- (Sdk/Reconnect), for which the limit on the attempts is enough. Every other loop goes over a finite
-- list: the messages of a claim, the calls of a history, the rows of a page.
--
-- Parameters: the cipher of chacha20poly1305, HKDF, HMAC and Ed25519, flynn/noise, the answers of
-- PostgreSQL, Kafka, Redis and the object store, protobuf's Marshal and Unmarshal, Sscanf, what pgx's
-- Scan does with a NULL, encoding/json, and arithmetic on float64. Of these a theorem assumes what
-- its comment says: that Open inverts Seal, that SET NX sets a key once and for its time, that Sscanf
-- reads what EncodeToString writes, that what is marshalled reads back, that the library follows the
-- handshake pattern, that a signature verifies, or that nothing is committed where automatic commits
-- are off.
--
-- Not modelled: the main programs in server/cmd, which wire servers and clients, metrics and tracing
-- spans, the reads and writes of WebSocket connections, listeners and certificates, migrations, the
-- clients of the examples but for notifications, and the code in other languages.
pub mod Base
pub mod Sql
pub mod Message
pub mod Session
pub mod Transport
pub mod Noise
pub mod Crypto
pub mod SenderKeys
pub mod Kafka
pub mod Dispatcher
pub mod Outbox
pub mod Inbox
pub mod Groups
pub mod Sync
pub mod Media
pub mod Sdk
pub mod Apps
pub mod Gateway
