-- ===== src/Api.antt =====
-- internal/api: the handlers of the daemon's HTTP interface, and the routes of its two planes. A
-- handler takes the state of the daemon and gives the answer and the state that it leaves. The
-- decoding of a body by encoding/json is its outcome, where `none` is an error.
pub mod Response
pub mod Host
pub mod Homes
pub mod Settings
pub mod Enroll
pub mod Graphs
pub mod Serve
pub mod Routes
pub mod Rooted
pub mod Refused
pub mod Answers
pub mod Manager
pub mod Join
mod Tests
