-- ===== src/Client/Command.antt =====
-- client/src/App.cpp and readNodes of client/src/Utils.cpp: the start of the client and its loop
-- over the lines of the terminal. The configuration file is read by yaml-cpp, which is not part of
-- the repository: the parameter `load` gives the names and addresses of its list of nodes, with
-- nothing for a field that is missing or no text, or no list where the library throws. What is
-- printed is not modelled.
use mathlib.Core.Option
use blockchain_messaging_sys.Prelude.{
  ℕ, Bool, true, false, List, [], ◌∷◌, Option, none, some, Str, str_dec, codes, ite, Result, ok,
  fault, Fault,
}
use blockchain_messaging_sys.Serialization.{Archive}
use blockchain_messaging_sys.Text.{to_lower, tokenize_by_space}
use blockchain_messaging_sys.Client.{Client, new_client, create_queue, send_message, get_messages}

-- The loop of readNodes over the file's nodes. A field that is not there throws, and the caller gets
-- the empty text.
address_of : Str → List (Option Str × Option Str) → Str
address_of node_name [] = []
address_of node_name ((none, address) ∷ nodes) = []
address_of node_name ((some name, address) ∷ nodes) =
    ite (str_dec name node_name) (Option.get_or address []) (address_of node_name nodes)

module _ (load : Str → Option (List (Option Str × Option Str))) where
  -- readNodes
  unfoldable pub read_nodes : Str → Str → Str
  unfolding address_of
  read_nodes config_path node_name = elim (load config_path) [
    | none ↦ []
    | some nodes ↦ address_of node_name nodes
  ]

  -- The start of main, on its arguments: nothing if they are not two.
  unfoldable pub start : List Str → Option Client
  unfolding read_nodes new_client
  start (server_name ∷ client_name ∷ []) = some (
      new_client (record {
        host = read_nodes (codes "Nodes.yaml") server_name;
        server_name = server_name;
        client_name = client_name;
      }))
  start _ = none

-- How the loop stands when the input read so far is used up.
pub data Loop : Type 0 where
  reading exited : Loop

module _ (archive : Archive) (now : ℕ) where
  unfoldable pub init : List Str → Client → Client
  unfolding create_queue
  init (que_to_be_created ∷ []) c = create_queue archive now que_to_be_created c
  init _ c = c

  unfoldable pub send : List Str → Client → Client
  unfolding send_message
  send (que_name ∷ message ∷ []) c = send_message archive now que_name message c
  send _ c = c

  unfoldable pub request : List Str → Client → Client
  unfolding get_messages
  request (que_name ∷ date ∷ []) c = (get_messages archive now que_name date c).0
  request _ c = c

  -- The tests of an operation, one after the other; the last three are one chain.
  unfoldable pub operate : Str → List Str → Client → Client × Bool
  unfolding init send request
  operate operation args c =
      let c1 = ite (str_dec operation (codes "init")) (init args c) c in
      let c2 = ite (str_dec operation (codes "send")) (send args c1) c1 in
      ite (str_dec operation (codes "getMessages")) (request args c2, false)
        (ite (str_dec operation (codes "exit")) (c2, true) (c2, false))

  -- `args[0]` of an empty vector is undefined.
  unfoldable pub run_words : List Str → Client → Result (Client × Bool)
  unfolding operate to_lower
  run_words [] c = fault Fault.out_of_range
  run_words (word ∷ args) c = ok (operate (to_lower word) args c)

  -- The body of the loop, on a line that is not empty.
  unfoldable pub run_command : Str → Client → Result (Client × Bool)
  unfolding run_words tokenize_by_space
  run_command command c = run_words (tokenize_by_space command) c

-- The loop of main, on the lines that are read, each with the clock reading of its turn.
unfoldable pub run_lines : Archive → List (ℕ × Str) → Client → Result (Loop × Client)
unfolding run_command
run_lines archive [] c = ok (Loop.reading, c)
run_lines archive ((now, []) ∷ lines) c = run_lines archive lines c
run_lines archive ((now, a ∷ cs) ∷ lines) c = elim (run_command archive now (a ∷ cs) c) [
  | fault e ↦ fault e
  | ok (c', true) ↦ ok (Loop.exited, c')
  | ok (c', false) ↦ run_lines archive lines c'
]
