-- ===== src/Lib.antt =====
-- LuaXENetwork: the network core of the Lua module, as a shallow embedding.
--
-- The program is a Windows DLL. A request of `main.cpp` dials a server (`socket/Dial.cpp`), through
-- a SOCKS5 proxy if there is one, lets `socket/TlsVerify.cpp` judge the certificate of a TLS
-- server, and receives an HTTP response in a loop that decodes chunked bodies.
--
-- - Prelude: Boolean tests on native numbers, lists of bytes, text search, and the result type in
--   which fallible code is written. Bytes are numbers, and a text is the list of its bytes.
-- - Text, Text.Numbers (main.cpp): `LowerAscii`, `TrimAscii`, and what the code uses of
--   `std::stoull`, `std::stoi` and stream extraction.
-- - Timeouts (socket/Dial.cpp `Seconds`, `Remaining`; main.cpp repeats them): time budgets in
--   milliseconds; the clock's readings are arguments.
-- - Http.Chunk (main.cpp `HttpChunkDecoder`): `round` is one round of the loop in `Feed`, `drain`
--   the loop and `feed` the call.
-- - Http.Headers (main.cpp `ParseResponseHeaders`, `ResponseHeader`): the head of a response.
-- - Http.Transfer (main.cpp `ResolveHttpRequest`, from the locals of its loop on): `Transfer` is
--   the locals, `take_turn` a round, `run` the loop. What `Recv`, the clock and `should_cancel`
--   answer in a round is a `Turn`; the other callbacks are `Callbacks`. Clock and `elapsed_ms`, and
--   the texts of errors, are left out.
-- - Http.Pushed (main.cpp `PushResponse`, `HttpHostHeader`): what Lua is given of a response, and the
--   Host header.
-- - Http.Url (main.cpp `ParseHttpUrl`): the URL of a simple request.
-- - Tls.Der (socket/TlsVerify.cpp `ReadTlv` to `ReadAltNames`): pointers are offsets, and a read
--   outside of the encoded bytes is a fault of the model.
-- - Tls.Names (socket/TlsVerify.cpp `AsciiEqualsInsensitive`, `MatchesWildcard`).
-- - Tls.Verifier (socket/TlsVerify.cpp `CertificateVerifier`): what the chain engine and the SSL
--   policy answer is part of the certificate that is checked.
-- - Tls.Client (socket/SSLClient.cpp `CSSLClient::Recv`, `RecvPartialEncrypted`), Tls.Client.Sending
--   (`CSSLClient::Send`): the stream behind the handshake. DecryptMessage, EncryptMessage and the
--   socket's Send are a `Package`; `Peer` and `Opens` say what a peer writes and how it is opened.
-- - Tls.Handshake (socket/SSLClient.cpp `SSPINegotiateLoop`, `GetNewClientCredentials`, and
--   `Initialize` from the negotiation on): `Negotiation` is the locals of the loop and its rounds, `read_more` and
--   `take_step` are the parts of a round. InitializeSecurityContext, the certificate helpers and the
--   hooks are a `Security`; Dial has a simpler view of the handshake: the one certificate, if any,
--   that the verifier is given, and whether the handshake fails for a reason of its own.
-- - Proxy.Target (socket/Dial.cpp `PercentDecode`, `ParseProxyUrl`): the proxy's URL.
-- - Proxy.Addresses and Proxy.Request (socket/Dial.cpp `ResolveLocally`, `ConnectRequest`): the
--   platform's resolver is a parameter.
-- - Proxy.Wire (socket/BaseSock.cpp `CBaseSock::Recv`, socket/Dial.cpp `StepBudget`, `SendAll`,
--   `RecvExact`): reads of bytes that arrive in any portions.
-- - Proxy.Replies and Proxy.Handshake (socket/Dial.cpp `ReplyCode`, `Socks5Handshake`).
-- - Dial (socket/Dial.cpp `Dial`): `reach` is the connection with or without the proxy, `secure` the
--   TLS part with the verifier as its hook; `World` holds what the platform answers.
-- - BaseSocket (socket/BaseSock.cpp `CBaseSock::RecvPartial`, `Recv`, `SendPartial`, `Send`): the
--   overlapped reads and writes; the outcomes of the clock, of Winsock and of the wait are a list of
--   `Io`. Proxy.Wire stands on a simpler view of the same reads, with bytes and without a clock.
-- - Socket (socket/Socket.cpp `WaitReadable`, `ReceiveBytes`, `ReceiveLine`): the reads of an
--   accepted socket; what Winsock and the clock answer in the rounds of a loop is a list.
-- - Connection (connection.cpp `AsyncConnection`): the polled connection; what Winsock answers to
--   one call of `Poll` is an `Answers`, and `poll_all` is the caller that polls until it is true.
-- - Server (main.cpp `ListenerContext::lua_Request`): `read_head` and `read_body` are its loops over the
--   answers of `ReceiveBytes`; `Server.Builders` is `RequestBuilder`, `ResponseBuilder` and
--   `lua_Build` over the fields of a Lua table, which are strings or not given.
-- - Options (main.cpp `HttpRequestOptions`, `ReadRequestOptions`): the fields of the table of options,
--   by what the Lua API answers of each; `int` and `long long` are their bits.
-- - Tests: the theorems at concrete inputs.
--
-- Fuel: `drain` gets one more than the bytes of its buffer, and every round that goes on takes some
-- off; `walk` gets the bytes that are left, and every round that goes on consumes one; `recv` gets
-- the bytes that are missing, and every round that goes on reads one; `header_lines` gets the
-- length of its text; `decrypt_loop` gets one more than the bytes that arrive, of which every round
-- that goes on takes some; `send_chunks` gets the bytes of the text. The fuel of
-- `negotiate_loop` is an argument: twice the bytes that arrive, and two, are enough where a step
-- takes a byte.
--
-- Not modelled: the Lua bindings, wrappers of
-- operating system handles, and the copies of other projects (`websocketpp`, `misc/json.hpp`).
pub mod Prelude
pub mod Text
pub mod Timeouts
pub mod Http
pub mod Tls
pub mod Proxy
pub mod Dial
pub mod BaseSocket
pub mod Socket
pub mod Connection
pub mod Server
pub mod Options
pub mod Tests
