-- ===== src/Client.antt =====
-- io.Socket, io.SocketNamespace and io.Transport: the state of a connection and its operations.
pub mod State
pub mod Buffer
pub mod Close
pub mod Namespaces
pub mod Opening
pub mod Packets
pub mod Events
pub mod Fallback
pub mod Publishing
pub mod Sharing
pub mod Details
pub mod Locating
pub mod Addresses
pub mod Handshake
pub mod Form
pub mod Answers
pub mod Flash
pub mod Creation
pub mod Scripts
pub mod Backoff
pub mod Untouched
pub mod Layers
pub mod Ending
pub mod Frame
pub mod Delivery
pub mod Polling
pub mod Numbering
pub mod Acknowledgement
pub mod Reconnection
pub mod Malformed
pub mod Disconnection
