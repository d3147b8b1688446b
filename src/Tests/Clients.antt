-- ===== src/Tests/Clients.antt =====
-- The producer, and the way from a client's terminal to the node and back.
use blockchain_messaging_sys.Prelude.{
  Bool, true, false, ◌&&◌, not, ◌≡◌, ◌↔◌, refl, List, [], ◌∷◌, ◌++◌, Str, codes, ok, arith,
}
use blockchain_messaging_sys.Itf.{Message, Header}
use blockchain_messaging_sys.Buffer.{empty_buffer}
use blockchain_messaging_sys.Consumer.{
  Consumer, create_channel, control_channel, handle_control_message,
}
use blockchain_messaging_sys.Serialization.{
  message_class, header_class, serialize, write_message, write_header, read_message,
}
use blockchain_messaging_sys.Serialization.Samples.{
  encode, encode_str, sample_archive, sample_archive-laws, sample_archive-ended,
}
use blockchain_messaging_sys.Text.{
  is_space, extract, push_back, tokenize_by_space, to_lower, tolower,
}
use blockchain_messaging_sys.Text.Words.{Reads, IsFree, IsWord, tokenize_by_space_iff}
use blockchain_messaging_sys.Text.Tokens.{is_char, sample_tokenize, sample_tokenize-laws}
use blockchain_messaging_sys.Producer.{parse_command}
use blockchain_messaging_sys.Producer.Laws.{Obeys, parse_command_lem}
use blockchain_messaging_sys.Client.{Client, ClientInfo, publish_message, header_to, message_of}
use blockchain_messaging_sys.Client.Inbox
use blockchain_messaging_sys.Client.Command.{run_command}
use blockchain_messaging_sys.Client.Reach.{IsSeparable, Command, command_reaches}
use blockchain_messaging_sys.Client.Listener.{
  Pc, Event, Listener, new_listener, run, work, show, show_all,
}
use blockchain_messaging_sys.Client.Listener.Laws.{
  IsTimely, IsMessage, Accounts, Prints, listener_lem, late_message_lost,
}
use blockchain_messaging_sys.Tests.Samples.{configuration, message_at}

tokenize_by_space_iff_example :
    (tokenize_by_space (codes " Send  bob hi ") ≡ codes "Send" ∷ codes "bob" ∷ codes "hi" ∷ [])
    ↔ Reads is_space (codes "Send" ∷ codes "bob" ∷ codes "hi" ∷ []) (codes " Send  bob hi ")
tokenize_by_space_iff_example =
    tokenize_by_space_iff (codes " Send  bob hi ") (codes "Send" ∷ codes "bob" ∷ codes "hi" ∷ [])

-- A broadcast, to a node whose queue can be declared.
abbrev broadcast_line : Str
broadcast_line = codes "BroadCast hello\t"

abbrev broadcast_words : List Str
broadcast_words = codes "BroadCast" ∷ codes "hello" ∷ []

broadcast-Reads : Reads is_space broadcast_words broadcast_line
unfolding tokenize_by_space extract push_back is_space
broadcast-Reads = (tokenize_by_space_iff broadcast_line broadcast_words).0 refl

parse_command_lem_example :
    Obeys
      (λ address. true)
      (λ node. true)
      configuration
      broadcast_words
      []
      (parse_command (λ address. true) (λ node. true) configuration broadcast_line [])
parse_command_lem_example =
    parse_command_lem (λ address. true) (λ node. true) configuration broadcast_line broadcast_words
      [] broadcast-Reads

-- A text with no `@`, by a test of each byte.
all_free : Str → Bool
all_free [] = true
all_free (c ∷ cs) = not (is_char b'@' c) && all_free cs

all_free-IsFree : (s : Str) → all_free s ≡ true → IsFree (is_char b'@') s
unfolding all_free
all_free-IsFree [] h = tt
all_free-IsFree (c ∷ cs) h = (ground arith, all_free-IsFree cs (ground arith))

abbrev info : ClientInfo
info = record {
  host = codes "amqp://localhost";
  server_name = codes "NodeA";
  client_name = codes "bob";
}

abbrev client : Client
client = record {
  client_info = info;
  amqp_handler = record { declared = []; consumed = []; published = [] };
  buffer = record { entries = [] };
}

init-Reads : Reads is_space (codes "INIT" ∷ codes "q" ∷ []) (codes "INIT q")
unfolding tokenize_by_space extract push_back is_space
init-Reads = (tokenize_by_space_iff (codes "INIT q") (codes "INIT" ∷ codes "q" ∷ [])).0 refl

init_lower : to_lower (codes "INIT") ≡ codes "init"
unfolding to_lower tolower
init_lower = refl

is_word : Str → Bool
unfolding all_free
is_word [] = false
is_word (c ∷ cs) = all_free (c ∷ cs)

is_word-IsWord : (s : Str) → is_word s ≡ true → IsWord (is_char b'@') s
unfolding is_word
is_word-IsWord [] h = absurd (cc h)
is_word-IsWord (c ∷ cs) h = all_free-IsFree (c ∷ cs) h

abbrev Separable : Header → Message → Type 0
Separable header message =
    IsSeparable sample_archive sample_tokenize sample_archive-laws sample_archive-ended
      sample_tokenize-laws header message

Separable-tests :
    (header : Header) (message : Message)
    → is_word (serialize sample_archive header_class header) ≡ true
    → all_free (serialize sample_archive message_class message) ≡ true
    → Separable header message
Separable-tests header message h m = (is_word-IsWord _ h, all_free-IsFree _ m)

init-Separable :
    Separable
      (header_to (codes "CreateChannel") (control_channel (codes "NodeA")) info)
      (message_of 1000 (codes "q") info)
unfolding header_to message_of serialize encode encode_str write_header write_message all_free
    is_word control_channel
init-Separable =
    Separable-tests (header_to (codes "CreateChannel") (control_channel (codes "NodeA")) info)
      (message_of 1000 (codes "q") info) refl refl

abbrev consumer : Consumer
consumer = record { client_names = codes "eve" ∷ []; declarations = []; consumed = [] }

command_reaches_example :
    (text : Str) × (run_command sample_archive 1000 (codes "INIT q") client
      ≡ ok (
        record client {
          amqp_handler = publish_message (control_channel (codes "NodeA")) text client.amqp_handler;
        },
        false,
      ))
    × (handle_control_message sample_archive sample_tokenize text consumer
        ≡ ok (create_channel (codes "q") (codes "bob") consumer))
command_reaches_example =
    command_reaches sample_archive sample_tokenize sample_archive-laws sample_archive-ended
      sample_tokenize-laws (Command.init_command (codes "q")) 1000 (codes "INIT q") client consumer
      empty_buffer (codes "INIT", init-Reads, init_lower) init-Separable

abbrev hello : Str
hello = serialize sample_archive message_class (message_at 3)

hello_shown : show sample_archive sample_tokenize hello ≡ ok (codes "me", codes "hi")
unfolding show serialize encode encode_str write_message read_message sample_tokenize
hello_shown = refl

hello-IsMessage : IsMessage sample_archive sample_tokenize hello
hello-IsMessage = ((codes "me", codes "hi"), hello_shown)

-- A turn of the handler begins after one message; a second message comes during the test.
abbrev two_arrivals : List Event
two_arrivals =
    Event.arrives hello
    ∷ Event.works
    ∷ Event.arrives hello
    ∷ Event.works
    ∷ Event.works
    ∷ Event.works
    ∷ Event.arrives hello
    ∷ []

two_arrivals-IsTimely : IsTimely sample_archive sample_tokenize two_arrivals new_listener
unfolding work show_all serialize encode encode_str write_message read_message sample_tokenize
    Inbox.push_back
two_arrivals-IsTimely = (tt, (tt, (tt, tt)))

listener_lem_example :
    (l : Listener) × (run sample_archive sample_tokenize two_arrivals new_listener ≡ ok l)
    × Accounts sample_archive sample_tokenize (hello ∷ hello ∷ hello ∷ []) l
listener_lem_example =
    listener_lem sample_archive sample_tokenize two_arrivals two_arrivals-IsTimely
      (hello-IsMessage, (hello-IsMessage, (hello-IsMessage, tt)))

abbrev one_waiting : Listener
one_waiting = record { buffer = record { entries = hello ∷ [] }; pc = Pc.idle; output = [] }

hello-Prints : Prints sample_archive sample_tokenize (hello ∷ []) ((codes "me", codes "hi") ∷ [])
hello-Prints = Prints.one_more hello_shown Prints.none_left

late_message_lost_example :
    run sample_archive sample_tokenize
      (Event.works ∷ Event.works ∷ Event.arrives hello ∷ Event.works ∷ Event.works ∷ [])
      one_waiting
    ≡ ok (record {
      buffer = record { entries = [] };
      pc = Pc.idle;
      output = [] ++ (codes "me", codes "hi") ∷ [];
    })
late_message_lost_example =
    late_message_lost sample_archive sample_tokenize one_waiting hello hello []
      ((codes "me", codes "hi") ∷ []) refl refl hello-Prints

abbrev eve : ClientInfo
eve = record {
  host = codes "amqp://localhost";
  server_name = codes "NodeA";
  client_name = codes "eve";
}
