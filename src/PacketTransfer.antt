-- ===== src/PacketTransfer.antt =====
-- app/packet_transfer.c: commands from the server to the gather board, and the node packets that
-- come back in fragments. The state and the operations are in State, Commands, Responses and
-- Session; the other children prove what they do.
pub mod State
pub mod Commands
pub mod Packets
pub mod Responses
pub mod Session
pub mod Buffer
pub mod Fragments
pub mod Reassembly
pub mod Rejects
pub mod Fits
pub mod Room
pub mod Invariant
pub mod Reset
pub mod Termination
pub mod Delivery
pub mod Answered
pub mod Frame
mod Tests
