-- ===== src/Tests.antt =====
-- The theorems at concrete inputs: an HTTP parser library, a property tree library and a network
-- that are ordinary functions, and the texts and packets that go through them.
mod Setup
mod Queries
mod Messages
mod Service
mod Network
mod Program
mod Registry
mod Requesting
mod Logging
mod RoundTrip
mod Serving
mod Discovering
mod Pieces
mod Fields
