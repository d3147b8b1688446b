-- ===== src/Serialization/RoundTrip.antt =====
-- Reading what was written, for the classes of common/itf.
use blockchain_messaging_sys.Prelude.{◌≡◌, refl, List, [], ◌∷◌, ◌++◌, some, arith, length}
use blockchain_messaging_sys.Itf.{Message, Block, BlockState}
use blockchain_messaging_sys.Serialization.{
  Field, Serializable, read_message, write_message, read_messages, write_messages, read_state,
  write_state, read_block, write_block, read_header, write_header, block_class, message_class,
  header_class,
}

-- The reader of a class takes back what its writer wrote, whatever follows.
pub record SerializableLaws {A : Type 0} (cls : Serializable A) : Type 0 where
  pub read_write : (a : A) (rest : List Field) → cls.read (cls.write a ++ rest) ≡ some (a, rest)

read_messages_write :
    (ms : List Message) (rest : List Field)
    → read_messages (length ms) (write_messages ms ++ rest) ≡ some (ms, rest)
unfolding read_messages write_messages
read_messages_write [] rest = refl
read_messages_write (m ∷ ms) rest = ground (arith, read_messages_write ms rest)

read_state_write : (s : BlockState) → read_state (write_state s) ≡ some s
unfolding read_state write_state
read_state_write BlockState.pending = refl
read_state_write BlockState.completed = refl

pub message_class-laws : SerializableLaws message_class
unfolding read_message write_message
message_class-laws = record { read_write = λ m rest. refl }

pub header_class-laws : SerializableLaws header_class
unfolding read_header write_header
header_class-laws = record { read_write = λ h rest. refl }

read_block_write :
    (b : Block) (rest : List Field) → read_block (write_block b ++ rest) ≡ some (b, rest)
unfolding read_block write_block
read_block_write b rest =
    ground (arith, read_state_write b.state, read_messages_write b.messages rest)

pub block_class-laws : SerializableLaws block_class
block_class-laws = record { read_write = read_block_write }
