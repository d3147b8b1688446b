-- ===== src/Producer.antt =====
-- node/src/Producer.cpp, the loop that sends test messages, and the look-ups of node/src/Utils.cpp.
-- AMQP is not part of the repository: for which addresses `AMQP::Address` does not throw is the
-- parameter `accepts`, whether a node's queue can be declared is the parameter `declares`, and a
-- message that goes out is its address, queue and text. Nothing catches what `AMQP::Address` throws.
pub mod Laws
use blockchain_messaging_sys.Prelude.{
  Bool, true, false, List, [], ◌∷◌, ◌++◌, Option, none, some, Str, str_dec, codes, ite, Result, ok,
  fault, Fault, ◌>>=◌, if◌then◌else◌,
}
use blockchain_messaging_sys.Itf.{NodeInfo, NodeConfiguration}
use blockchain_messaging_sys.Text.{to_lower, tokenize_by_space}

-- Utils::getNodeByAddress
unfoldable pub get_node_by_address : Str → List NodeInfo → Option NodeInfo
get_node_by_address address [] = none
get_node_by_address address (node ∷ nodes) =
    ite (str_dec address node.address) (some node) (get_node_by_address address nodes)

-- Utils::getNodeByName
unfoldable pub get_node_by_name : Str → List NodeInfo → Option NodeInfo
get_node_by_name name [] = none
get_node_by_name name (node ∷ nodes) =
    ite (str_dec name node.name) (some node) (get_node_by_name name nodes)

pub record Sent : Type 0 where
  pub address : Str
  pub queue : Str
  pub text : Str

-- How the loop stands when the input read so far is used up.
pub data Loop : Type 0 where
  reading exited terminated : Loop

-- How a command ends: the loop goes on, or ends, or an exception leaves it.
pub data Ending : Type 0 where
  goes_on exits throws : Ending

module _ (accepts : Str → Bool) (declares : NodeInfo → Bool) (config : NodeConfiguration) where
  -- sendTo: the address throws, or the queue's declaration succeeds, and its callback publishes, or
  -- the loop just ends.
  unfoldable pub send_to : NodeInfo → Str → List Sent → Ending × List Sent
  send_to node message sent =
      if accepts node.address
      then (
        Ending.goes_on,
        if declares node
            then sent ++ record { address = node.address; queue = node.name; text = message } ∷ []
            else sent,
      )
      else (Ending.throws, sent)

  -- What comes after a message to one node, where nothing was thrown.
  abbrev and_then : Ending × List Sent → (List Sent → Ending × List Sent) → Ending × List Sent
  and_then (Ending.goes_on, sent) next = next sent
  and_then (Ending.exits, sent) next = (Ending.exits, sent)
  and_then (Ending.throws, sent) next = (Ending.throws, sent)

  -- The loop of `broadcast` over the configured nodes.
  unfoldable pub send_to_all : List NodeInfo → Str → List Sent → Ending × List Sent
  unfolding send_to
  send_to_all [] message sent = (Ending.goes_on, sent)
  send_to_all (node ∷ nodes) message sent =
      and_then (send_to node message sent) λ more. send_to_all nodes message more

  unfoldable pub send_to_found : Option NodeInfo → Str → List Sent → Ending × List Sent
  unfolding send_to
  send_to_found none message sent = (Ending.goes_on, sent)
  send_to_found (some node) message sent = send_to node message sent

  unfoldable pub send : List Str → List Sent → Ending × List Sent
  unfolding send_to_found get_node_by_name
  send (name ∷ message ∷ more) sent =
      send_to_found (get_node_by_name name config.nodes) message sent
  send _ sent = (Ending.goes_on, sent)

  unfoldable pub broadcast : List Str → List Sent → Ending × List Sent
  unfolding send_to_all
  broadcast [] sent = (Ending.goes_on, sent)
  broadcast (message ∷ more) sent = send_to_all config.nodes message sent

  -- The chain of comparisons, of the operation and the arguments that follow it.
  unfoldable pub dispatch : Str → List Str → List Sent → Ending × List Sent
  unfolding send broadcast
  dispatch operation args sent = ite (str_dec operation (codes "send")) (send args sent) (
      ite (str_dec operation (codes "broadcast")) (broadcast args sent)
        (ite (str_dec operation (codes "exit")) (Ending.exits, sent) (Ending.goes_on, sent)))

  -- `args[0]` of an empty vector is undefined.
  unfoldable pub run_words : List Str → List Sent → Result (Ending × List Sent)
  unfolding dispatch to_lower
  run_words [] sent = fault Fault.out_of_range
  run_words (word ∷ args) sent = ok (dispatch (to_lower word) args sent)

  -- parseCommand
  unfoldable pub parse_command : Str → List Sent → Result (Ending × List Sent)
  unfolding run_words tokenize_by_space
  parse_command command sent = run_words (tokenize_by_space command) sent

  -- run, on the lines that are read. The loop goes on at the end of the input: an empty line.
  unfoldable pub run : List Str → List Sent → Result (Loop × List Sent)
  unfolding parse_command
  run [] sent = ok (Loop.reading, sent)
  run ([] ∷ lines) sent = run lines sent
  run ((c ∷ cs) ∷ lines) sent = elim (parse_command (c ∷ cs) sent) [
    | fault e ↦ fault e
    | ok (Ending.exits, sent') ↦ ok (Loop.exited, sent')
    | ok (Ending.throws, sent') ↦ ok (Loop.terminated, sent')
    | ok (Ending.goes_on, sent') ↦ run lines sent'
  ]
