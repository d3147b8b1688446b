-- ===== src/Slot/State.antt =====
-- slot::SlotContext, and the parts of the node that the handlers of all slots share.
use blockchain_messaging_sys.Prelude.{
  ℕ, ◌≡◌, refl, Bool, true, false, List, [], Str, Result, ok, fault, Fault,
}
use blockchain_messaging_sys.Itf.{Block, NodeConfiguration, block_default}
use blockchain_messaging_sys.Buffer.{Buffer}
use blockchain_messaging_sys.Consumer.{Consumer}
use blockchain_messaging_sys.Io.Channels.{ChannelStore, Publication}
use blockchain_messaging_sys.Io.Wrappers.{ConsensusHeader, ConsensusOperation, ContributionWrapper}
use blockchain_messaging_sys.Redis.{Redis}
use blockchain_messaging_sys.Storage.State.{ConsensusStorage}

pub record SlotContext : Type 0 where
  pub node_configuration : NodeConfiguration
  pub contribution_wrapper : ContributionWrapper
  pub header : ConsensusHeader
  pub serialized_header : Str
  pub block_index : ℕ
  pub block : Block
  pub broadcast_block : Block
  pub should_call_next_handler : Bool
  pub validator : Str
  pub is_validator : Bool

-- SlotContext{} with the configuration that SlotHandler's constructor stores.
unfoldable pub new_context : ℕ → NodeConfiguration → SlotContext
unfolding block_default
new_context now config = record {
  node_configuration = config;
  contribution_wrapper = record { is_contributing = false };
  header = record {
    operation = ConsensusOperation.inspection;
    node = [];
    address = [];
    timestamp = 0;
    slot = 0;
  };
  serialized_header = [];
  block_index = 0;
  block = block_default now;
  broadcast_block = block_default now;
  should_call_next_handler = true;
  validator = [];
  is_validator = false;
}

-- What the handlers refer to: storage, database, buffer, consumer and channels, and what the
-- node has published.
pub record Node (redis : Redis) : Type 0 where
  pub storage : ConsensusStorage
  pub db : redis.Store
  pub buffer : Buffer
  pub consumer : Consumer
  pub channels : ChannelStore
  pub sent : List Publication

-- A slot handler at work.
pub record Slot (redis : Redis) : Type 0 where
  pub context : SlotContext
  pub node : Node redis

-- A handler returns, waits for a message that has not come, or ends by an error.
pub data Outcome (A : Type 0) : Type 0 where
  done : A → Outcome A
  blocked : Outcome A
  failed : Fault → Outcome A

abbrev pub of_result : {A : Type 0} → Result A → Outcome A
of_result (ok a) = Outcome.done a
of_result (fault e) = Outcome.failed e

infixl 5 ◌>>=◌
abbrev pub ◌>>=◌ : {A B : Type 0} → Outcome A → (A → Outcome B) → Outcome B
Outcome.done a >>= f = f a
Outcome.blocked >>= f = Outcome.blocked
Outcome.failed e >>= f = Outcome.failed e

-- Where a chain of steps returns, its first step returns.
pub >>=-eq-done :
    {A B : Type 0} (m : Outcome A) (f : A → Outcome B) {b : B}
    → (m >>= f) ≡ Outcome.done b
    → (a : A) × (m ≡ Outcome.done a) × (f a ≡ Outcome.done b)
>>=-eq-done (Outcome.done a) f h = (a, refl, h)
>>=-eq-done Outcome.blocked f h = cc
>>=-eq-done (Outcome.failed e) f h = cc

-- What the environment does while one handler runs: the clock, the numbers that the random
-- generator gives, and the messages that the consensus queue delivers.
pub record Delivery : Type 0 where
  pub now : ℕ
  pub text : Str

pub record Moment : Type 0 where
  pub now : ℕ
  pub draws : List ℕ
  pub deliveries : List Delivery
