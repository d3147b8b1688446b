-- ===== src/Itf.antt =====
-- The shared data: common/itf/{Block,BlockState,Message,Header}, common/NodeConfiguration.hpp and
-- the slot arithmetic of common/utils/Time.cpp. The source's `data` fields are `messages` in a
-- block and `body` in a message. A constructor that reads the clock takes the reading `now`.
pub mod Slots
pub mod Channels
use blockchain_messaging_sys.Prelude.{
  ℕ, ◌-◌, ◌/◌, ◌%◌, Bool, ◌&&◌, true, false, List, [], ◌∷◌, Str, str_dec, ◌==◌, ite, codes,
}

-- Time::SLOT, in milliseconds.
abbrev pub slot_length : ℕ
slot_length = 500

-- Time::getSlot(timestamp)
unfoldable pub get_slot : ℕ → ℕ
get_slot timestamp = timestamp / slot_length

-- Time::getTimeToTheNearestSlot(timestamp); the result is narrowed to 16 bits.
unfoldable pub get_time_to_the_nearest_slot : ℕ → ℕ
get_time_to_the_nearest_slot timestamp = (slot_length - timestamp % slot_length) % 65536

pub data BlockState : Type 0 where
  pending completed : BlockState

pub record Message : Type 0 where
  pub timestamp : ℕ
  pub body : Str
  pub author : Str

pub record Block : Type 0 where
  pub state : BlockState
  pub timestamp : ℕ
  pub slot : ℕ
  pub messages : List Message

-- Block(timestamp, data)
unfoldable pub block_at : ℕ → List Message → Block
unfolding get_slot
block_at timestamp messages = record {
  state = BlockState.pending;
  timestamp = timestamp;
  slot = get_slot timestamp;
  messages = messages;
}

-- Block() and Block(data), at the clock reading `now`
unfoldable pub block_default : ℕ → Block
unfolding block_at
block_default now = block_at now []

unfoldable pub block_of : ℕ → List Message → Block
unfolding block_at
block_of now messages = block_at now messages

str_eq : Str → Str → Bool
unfolding str_dec
str_eq a b = ite (str_dec a b) true false

-- Message::operator==
unfoldable pub message_eq : Message → Message → Bool
unfolding str_eq
message_eq m other =
    (other.timestamp == m.timestamp) && str_eq other.body m.body && str_eq other.author m.author

state_eq : BlockState → BlockState → Bool
state_eq BlockState.pending BlockState.pending = true
state_eq BlockState.completed BlockState.completed = true
state_eq _ _ = false

messages_eq : List Message → List Message → Bool
unfolding message_eq
messages_eq [] [] = true
messages_eq (m ∷ ms) (n ∷ ns) = message_eq n m && messages_eq ms ns
messages_eq _ _ = false

-- Block::operator==
unfoldable pub block_eq : Block → Block → Bool
unfolding state_eq messages_eq
block_eq b other =
    (other.timestamp == b.timestamp)
    && (other.slot == b.slot)
    && state_eq other.state b.state
    && messages_eq other.messages b.messages

-- common::itf::Header, of the messages between client and node
pub record Header : Type 0 where
  pub target : Str
  pub server_name : Str
  pub que_name : Str
  pub client_address : Str

pub record NodeInfo : Type 0 where
  pub name : Str
  pub address : Str

pub record NodeConfiguration : Type 0 where
  pub self : NodeInfo
  pub nodes : List NodeInfo

-- common::itf::DEFAULT_BLOCKAIN
abbrev pub default_blockchain : Str
default_blockchain = codes "DEFAULT_BLOCKCHAIN"
