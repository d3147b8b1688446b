-- ===== src/Buffer.antt =====
-- node/src/Buffer.{hpp,cpp}: the messages of the clients, gathered into blocks.
pub mod Fifo
use blockchain_messaging_sys.Prelude.{ℕ, List, [], ◌∷◌, ◌++◌, Option, none, some}
use blockchain_messaging_sys.Itf.{Message, Block, block_of}

pub record Buffer : Type 0 where
  pub messages : List Message
  pub blocks : List Block

abbrev pub empty_buffer : Buffer
empty_buffer = record { messages = []; blocks = [] }

-- push(const std::vector<Message> &) inserts at the front of the messages.
unfoldable pub push_all : List Message → Buffer → Buffer
push_all messages b = record b { messages = messages ++ b.messages }

-- push(const Message &)
unfoldable pub push : Message → Buffer → Buffer
push message b = record b { messages = b.messages ++ message ∷ [] }

-- save(), at the clock reading `now` of the block's constructor
unfoldable pub save : ℕ → Buffer → Buffer
unfolding block_of
save now b = elim b.messages [
  | [] ↦ b
  | m ∷ ms ↦ record { messages = []; blocks = b.blocks ++ block_of now (m ∷ ms) ∷ [] }
]

-- pop()
unfoldable pub pop : Buffer → Buffer × Option Block
pop b = elim b.blocks [ [] ↦ (b, none) | block ∷ rest ↦ (record b { blocks = rest }, some block) ]
