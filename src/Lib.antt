-- ===== src/Lib.antt =====
-- Pipa, a personal assistant: the part of its Python code that decides what a connected device may
-- do. A device sends JSON messages over a transport. backend/pipa_core/protocol.py parses them,
-- backend/pipa_core/core.py routes them for an authenticated session, backend/pipa_core/tools.py
-- runs tools and asks for a confirmation before an unsafe one, and
-- backend/pipa_core/confirmations.py keeps the confirmations until they are used, cancelled or
-- expired. backend/pipa_core/state.py holds the sessions and their screens,
-- backend/pipa_core/memory.py the facts of each device.
--
-- The modules and the code that they model:
--   Prelude: Python texts, dicts, exceptions as results, and the lemmas on them.
--   Json: decoded JSON values, and the size of their encoding.
--   Protocol: protocol.py. Checks has the field validators, Parse has `parse_client_message`, Server
--     has `server_message` and the envelopes that the Core builds, with their screen states
--     (`UI_STATES` of state.py).
--   Confirmations: `ConfirmationManager` of confirmations.py.
--   Tools: `ToolDefinition`, `ToolCatalog` and `ToolRouter` of tools.py.
--   Sessions: `DeviceSession` and `SessionRegistry` of state.py.
--   Memory: `MemoryStore` of memory.py.
--   TextPolicy: `validate_bounded_text` of windows-agent/tools/text_policy.py.
--   Core: core.py. Captions has the texts that a device may see, Catalog the validation of the
--     command catalog and of the capability matrix (backend/pipa_core/capability_contract.py),
--     State the Core itself, with its verifier: Guards its conditions, RunTool `_run_tool`,
--     Handle `handle` and `handle_transcript`. Its proofs are Effects and SafeEffects (what a
--     message may do to the world), Keeps, HandleKeeps and Invariant (bounds), Hello and Greeting
--     (the first message and the open question), and the modules Shown* (pending confirmations
--     and screens).
--   Connection: backend/pipa_core/connection.py, one authenticated connection: Limits and Closing
--     (failed authentications), Challenges, BeforeHello and Opening.
--   TrustedUnlock: `AuthorizationVerifier` of windows-agent/trusted_unlock_protocol.py.
--   Tickets: `TicketIssuer` of windows-agent/trusted_unlock_ticket.py.
--   Secure: the secure session of windows-agent/secure_session.py and its server,
--     secure_session_server.py. Crypto is what they use of the package cryptography, Base64 and
--     Canonical the encodings, Hello and Handshake the key exchange, Session the record layer,
--     Server the acceptance of hellos. Session.Channel is the network between two sessions, and the
--     queue that they implement. Audio is the sender and the receiver of a stream in
--     windows-agent/secure_audio.py, and Capture the gate, the consumer, the transcriber and the
--     command bridge of that file.
--   Timers: windows-agent/tools/timers.py.
--   Examples: small states, and the theorems applied to them.
--
-- A method is a function of the state that returns its result and the new state, also where it
-- raises: what was done before a raise stays done. An exception is a value of a data type with a
-- constructor for each class, or each `raise`, that callers tell apart. The clock and the random
-- source are arguments (`Tick`, `Draw`, `CallInfo`). In `authenticate` the Core, its verifier and
-- `sessions.create` have a reading of the clock each; in any other call one reading stands for all
-- that the call makes. A lock makes a method atomic, so calls are a sequence. The world that
-- handlers act on is a type parameter `W`; a handler may do anything to it and may raise, the other
-- callbacks of a tool only read it. A payload is a decoded JSON value whose objects have no
-- duplicate keys, and a text a sequence of code points.
--
-- Arguments of the model: the intent parsers of backend/pipa_core/intents.py, SHA-256 and the
-- canonical encoding of backend/pipa_core/request_binding.py, `str` of a value that is no text, the
-- test of an Ed25519 signature (the keys are a type in TrustedUnlock, and their bytes in the Core,
-- which holds the verifier), the primitives of the package cryptography in Secure (where the
-- theorems assume their documented laws), the speech provider and the dispatcher of Secure.Capture,
-- and the callbacks that read the catalogs. The theorems hold for all of them. All recursion is on
-- the data; there is no fuel.
--
-- Not modelled: the decoding of JSON text, the transports, the secure JSON channel, the broker of
-- the trusted unlock, the tool adapters, diagnostics and administration, and the firmware, iOS and
-- Windows code in other languages.
pub mod Confirmations
pub mod Connection
pub mod Core
pub mod Examples
pub mod Json
pub mod Memory
pub mod Prelude
pub mod Protocol
pub mod Secure
pub mod Sessions
pub mod TextPolicy
pub mod Tickets
pub mod Timers
pub mod Tools
pub mod TrustedUnlock
