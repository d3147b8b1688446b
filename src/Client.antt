-- ===== src/Client.antt =====
-- The terminal client: client/src/Client.cpp and ClientInfo.hpp over client/src/AmqpHandler.cpp.
-- AMQP is not part of the repository: a queue that is declared or consumed and a message that is
-- published are kept in lists. What the client reads and prints is in Command and Listener.
pub mod Inbox
pub mod Command
pub mod Listener
pub mod Reach
use blockchain_messaging_sys.Prelude.{ℕ, List, [], ◌∷◌, ◌++◌, Str, codes}
use blockchain_messaging_sys.Itf.{Message, Header}
use blockchain_messaging_sys.Serialization.{Archive, message_class, header_class, serialize}
use blockchain_messaging_sys.Io.Channels.{Publication}
use blockchain_messaging_sys.Client.Inbox.{Buffer, empty_buffer}

pub record ClientInfo : Type 0 where
  pub host : Str
  pub server_name : Str
  pub client_name : Str

-- What the client's AmqpHandler has done.
pub record AmqpHandler : Type 0 where
  pub declared : List Str
  pub consumed : List Str
  pub published : List Publication

-- AmqpHandler::createQueue
unfoldable pub declare_queue : Str → AmqpHandler → AmqpHandler
declare_queue queue h = record h { declared = h.declared ++ queue ∷ [] }

-- AmqpHandler::sendMessage
unfoldable pub publish_message : Str → Str → AmqpHandler → AmqpHandler
publish_message queue text h = record h { published = h.published ++ (queue, text) ∷ [] }

-- AmqpHandler::receive; its callback is `push_back` of the client's buffer.
unfoldable pub receive : Str → AmqpHandler → AmqpHandler
receive queue h = record h { consumed = h.consumed ++ queue ∷ [] }

pub record Client : Type 0 where
  pub client_info : ClientInfo
  pub amqp_handler : AmqpHandler
  pub buffer : Buffer Str

-- The first part of `listen`; the interval timer that it sets runs `Listener.work`.
unfoldable pub listen : Str → Client → Client
unfolding receive
listen queue c = record c { amqp_handler = receive queue c.amqp_handler }

-- Client(clientInfo)
unfoldable pub new_client : ClientInfo → Client
unfolding declare_queue listen
new_client info =
    let queue = info.client_name ++ codes "_ClientChannel" in
    listen queue (record {
      client_info = info;
      amqp_handler = declare_queue queue (record { declared = []; consumed = []; published = [] });
      buffer = empty_buffer;
    })

-- The header and the message that the client sends for a target.
unfoldable pub header_to : Str → Str → ClientInfo → Header
header_to target queue info = record {
  target = target;
  server_name = info.server_name;
  que_name = queue;
  client_address = info.client_name;
}

unfoldable pub message_of : ℕ → Str → ClientInfo → Message
message_of now text info = record { timestamp = now; body = text; author = info.client_name }

module _ (archive : Archive) where
  -- serializeData
  unfoldable pub serialize_data : Header → Message → Str
  unfolding serialize
  serialize_data header message =
      serialize archive header_class header
      ++ (codes "@" ++ (serialize archive message_class message ++ 10 ∷ []))

  -- createQueue, at the clock reading `now`
  unfoldable pub create_queue : ℕ → Str → Client → Client
  unfolding serialize_data header_to message_of publish_message
  create_queue now que_to_be_created c =
      let info = c.client_info in
      let que_name = info.server_name ++ codes "_ControlChannel" in
      let text =
        serialize_data (header_to (codes "CreateChannel") que_name info)
          (message_of now que_to_be_created info) in
      record c { amqp_handler = publish_message que_name text c.amqp_handler }

  -- sendMessage
  unfoldable pub send_message : ℕ → Str → Str → Client → Client
  unfolding serialize_data header_to message_of publish_message
  send_message now que_name data_to_send c =
      let info = c.client_info in
      let text =
        serialize_data (header_to (codes "Send") que_name info)
          (message_of now data_to_send info) in
      record c { amqp_handler = publish_message que_name text c.amqp_handler }

  -- getMessages: the request is made, not sent, and no message is returned.
  unfoldable pub get_messages : ℕ → Str → Str → Client → Client × List Message
  get_messages now que_name request_data c = (c, [])
