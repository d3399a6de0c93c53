-- ===== src/Ipc.antt =====
-- examples/example-ipc: programs that ask for the arguments of a System V call, make it, and show
-- what it answers. What scanf(3) reads is an argument of the model.
pub mod Get
pub mod Queue
pub mod Control
pub mod Controlling
pub mod Message
pub mod Segment
pub mod Operation
pub mod Sending
pub mod Operating
pub mod Attachment
pub mod Attaching
pub mod Tests
