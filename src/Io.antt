-- ===== src/Io.antt =====
-- node/src/io: the header and the wrappers of the consensus messages, the framing of
-- io/Utils.hpp, channels and connections, and their stores. AMQP is not part of the repository:
-- `channel.publish` appends to the list of what is sent.
pub mod Framing
pub mod Wrappers
pub mod Channels
pub mod Connections
