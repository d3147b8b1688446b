-- ===== src/Lib.antt =====
-- A verification library for the node and the client of the blockchain messaging system. Clients
-- send messages to a node; every 500 milliseconds the nodes run one slot of a consensus protocol, in
-- which they tell each other whether they have messages, elect a validator by random numbers, send it
-- their blocks, and take over the merged block that it broadcasts. Times are milliseconds of the
-- clock.
--
-- Parts, files and source (paths from the repository's root):
--   Prelude        shared names, texts as lists of bytes, maps as association lists in iteration
--                  order (the order of an `unordered_map` is not specified, and what depends on it
--                  is stated for each order), and errors as values.
--   Itf            common/itf, common/NodeConfiguration.hpp, common/utils/Time.cpp: Message, Block,
--                  Header, getSlot, getTimeToTheNearestSlot; Channels common/Channel.hpp and
--                  ChannelStore.hpp.
--   Serialization  common/serialization/Serializer.hpp and the `serialize` function of each class.
--   Storage        node/src/db/ConsensusStorage.cpp: State has the data and the methods that write
--                  one entry, Sync the condition of each slot, Queries the tests over all nodes,
--                  Election markValidator, getValidator and removeElectionValueDuplicates, Merge
--                  mergeContributors, View the calls on entries over a partial map. A method runs
--                  under the storage's mutex and is one step, but for initContexts, of which a
--                  locked turn of the loop is one step.
--   Buffer         node/src/Buffer.cpp: push, save, pop.
--   Redis          node/src/db/RedisDB.cpp: add, update, remove, getByIndex, get.
--   Io             node/src/io: Framing has split and merge, Wrappers the header and the bodies of
--                  consensus messages, Channels the channels and their stores, Connections the
--                  connections to nodes and the event loops that they own.
--   App            node/src/App.cpp: Consume is the callback of the consensus queue; Startup has
--                  the callbacks of the timer and the channels to the other nodes; Main the
--                  arguments, node/src/ConfigurationReader.cpp and what a tick runs; Launch the
--                  rest of `main`, up to the threads that it starts.
--   Consumer       node/src/Consumer.cpp: the control queue and the delivery to clients.
--   Slot           node/src/slot: State has SlotContext, Steps the nine handlers that do not wait,
--                  Waiters the four that do, Handler the loop of SlotHandler::handle, TimerWheel
--                  node/src/slot/TimerWheel.hpp. Handler.Chain and Course follow a whole slot through the
--                  database, Handler.Rounds, Messages and Agreement a declaration, a value, a block
--                  and a broadcast from one node's handler to another node's storage, and
--                  Waiters.Ready and Elected what the nodes have declared and drawn when a wait ends.
--   Timer          common/utils/Timer.hpp: the threads that set, stop and work for a timer.
--   Text           common/utils/Text.cpp: toLower, tokenizeBySpace, splitBySeparator.
--   Producer       node/src/Producer.cpp and node/src/Utils.cpp: the loop that sends test messages.
--   Client         client/src: Client.cpp over AmqpHandler.cpp; Inbox is common/Buffer.hpp, Command
--                  App.cpp and readNodes, Listener handleBufferedData beside the AMQP thread, Reach
--                  what the node makes of the client's messages.
--   Tests          concrete runs of the theorems.
--
-- How they interact: SlotHandler::handle calls its handlers in order; they read and write the
-- storage, the buffer, the database and the channels, which are the fields of `Node`. A message
-- published by one node is the input of another's `on_consensus_message`, which writes its storage
-- and raises the flag of a slot's condition. A wait is a function of the messages that are
-- delivered while it lasts: the predicate is tested first and after each message, and the wait
-- blocks when the messages end and the predicate is still false. Slot.Wait.Threads has the same wait
-- and the callback as two threads, with notifications that may be lost; everywhere else a wait gets
-- every notification. The timer wheel is a table of
-- callbacks over a timer; the timer's threads, and the two threads of the client's listener, take
-- their steps in any order, which a list of events gives. A client's text is the input of
-- `handle_control_message` and `on_client_message`, and what `publish_block` sends is what arrives at
-- the listener.
--
-- Parameters and bounds: the text archive of Boost, the Redis server, Boost's tokenizer, yaml-cpp
-- and AMQP are not part of the repository. They are parameters, with what the code relies on of their
-- documented behaviour as records of laws (ArchiveLaws, NewlineLaws, RedisLaws, TokenizerLaws), and
-- Serialization.Samples, Redis.Samples and Text.Tokens fill them. The clock is an
-- argument `now`; the numbers of the random device are arguments too. The sum of markValidator is
-- computed in 32 and 64 bits as the source does, `int_index` narrows to a signed 32-bit number, and
-- the arithmetic of `split` wraps at 2 ^ 64. No loop needs fuel: each is structural, over a list of
-- rows, handlers, messages, events or random numbers.
--
-- Not modelled: the length of a sleep, what an event loop does, the random device but for its
-- largest number, and what is printed or logged. A loop of libev is the number of the call that
-- made it. Each slot has a thread of its own, and `handle` is one of them alone: that the threads
-- of several slots share the database and the storage is not modelled, nor what the data race of
-- initContexts does, which makes the node's own entry without the mutex. Which addresses the AMQP
-- library accepts is the parameter `accepts`, of which nothing is assumed.
pub mod Prelude
pub mod Itf
pub mod Serialization
pub mod Storage
pub mod Buffer
pub mod Io
pub mod Redis
pub mod App
pub mod Consumer
pub mod Slot
pub mod Timer
pub mod Text
pub mod Producer
pub mod Client
pub mod Tests
