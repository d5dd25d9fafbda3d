-- ===== src/Http.antt =====
-- anet/http: packets, URLs, the HTTP parser and the observer of a session.
pub mod Query
pub mod Tables
pub mod CParser
pub mod Url
pub mod Packet
pub mod Parser
pub mod SessionObserver
