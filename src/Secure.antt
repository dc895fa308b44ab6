-- ===== src/Secure.antt =====
-- The secure session of protocol version 2: windows-agent/secure_session.py,
-- secure_session_server.py and, for audio, secure_audio.py.
pub mod Crypto
pub mod Base64
pub mod Canonical
pub mod Session
pub mod Hello
pub mod Handshake
pub mod Server
pub mod Audio
pub mod Capture
