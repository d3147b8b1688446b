-- ===== src/Consumer.antt =====
-- node/src/Consumer.cpp: the queue on which clients ask for channels, and the delivery of finished
-- blocks to them. Boost's tokenizer is not part of the repository: it is the parameter `tokenize`,
-- of a text and the separating characters. A declaration of a queue is a request to AMQP; its
-- `onSuccess` callback is `on_queue_declared`.
pub mod Laws
use blockchain_messaging_sys.Prelude.{
  ℕ, Bool, true, false, List, [], ◌∷◌, ◌++◌, Option, none, some, Str, str_dec, codes, ite, Result,
  ok, fault, Fault, ◌>>=◌, get_elem?, if◌then◌else◌,
}
use blockchain_messaging_sys.Itf.{Message, Block, Header, NodeConfiguration}
use blockchain_messaging_sys.Serialization.{
  Archive, message_class, header_class, serialize, deserialize,
}
use blockchain_messaging_sys.Buffer.{Buffer, push}
use blockchain_messaging_sys.Io.Channels.{Publication}

-- The names of the clients, the declarations asked for (queue and author), and the queues consumed.
pub record Consumer : Type 0 where
  pub client_names : List Str
  pub declarations : List (Str × Str)
  pub consumed : List Str

abbrev pub empty_consumer : Consumer
empty_consumer = record { client_names = []; declarations = []; consumed = [] }

-- `config.self.name + "_ControlChannel"`
unfoldable pub control_channel : Str → Str
control_channel name = name ++ codes "_ControlChannel"

-- Consumer(config, buffer): what arrives on the control queue goes to `handle_control_message`. The
-- queue's declaration has no callback but for errors, which are logged. `accepts` says for which
-- addresses `AMQP::Address` does not throw; the constructor does not catch what it throws.
unfoldable pub new_consumer : (Str → Bool) → NodeConfiguration → Result Consumer
unfolding control_channel
new_consumer accepts config =
    if accepts config.self.address
    then ok (record {
      client_names = [];
      declarations = [];
      consumed = control_channel config.self.name ∷ [];
    })
    else fault Fault.invalid_address

-- `vector.at(i)`
unfoldable pub at : ℕ → List Str → Result Str
at i texts = elim (get_elem? texts i) [ none ↦ fault Fault.out_of_range | some t ↦ ok t ]

-- createChannel
unfoldable pub create_channel : Str → Str → Consumer → Consumer
create_channel channel_to_be_created author c = record c {
  declarations = c.declarations ++ (channel_to_be_created, author) ∷ [];
  consumed = c.consumed ++ channel_to_be_created ∷ [];
}

-- `std::find(clientNames …) == clientNames.end()`, then `push_back`
unfoldable pub add_client_name : Str → List Str → List Str
add_client_name author [] = author ∷ []
add_client_name author (name ∷ names) =
    ite (str_dec name author) (name ∷ names) (name ∷ add_client_name author names)

-- The callback of a successful declaration.
unfoldable pub on_queue_declared : Str → Consumer → Consumer
unfolding add_client_name
on_queue_declared author c = record c { client_names = add_client_name author c.client_names }

-- `clientName + "_ClientChannel"`
unfoldable pub client_channel : Str → Str
client_channel name = name ++ codes "_ClientChannel"

module _ (archive : Archive) (tokenize : Str → Str → List Str) where
  -- handleControlMessage
  unfoldable pub handle_control_message : Str → Consumer → Result Consumer
  unfolding at deserialize create_channel
  handle_control_message text c = do
    let attributes = tokenize text (codes "@")
    serialized_header ← at 0 attributes
    serialized_message ← at 1 attributes
    header ← deserialize archive header_class serialized_header
    message ← deserialize archive message_class serialized_message
    ite (str_dec header.target (codes "CreateChannel"))
        (ok (create_channel message.body message.author c)) (ok c)

  -- The callback of the channel's messages: what a client sends goes to the buffer.
  unfoldable pub on_client_message : Str → Buffer → Result Buffer
  unfolding at deserialize push
  on_client_message text buffer = do
    serialized_message ← at 1 (tokenize text (codes "@"))
    message ← deserialize archive message_class serialized_message
    ok (push message buffer)

module _ (archive : Archive) where
  -- sendDataToClients
  unfoldable pub send_data_to_clients : Str → List Message → List Publication → List Publication
  unfolding serialize
  send_data_to_clients channel [] sent = sent
  send_data_to_clients channel (msg ∷ messages) sent =
      send_data_to_clients channel messages
        (sent ++ (channel, serialize archive message_class msg) ∷ [])

  publish_loop : List Str → List Message → List Publication → List Publication
  unfolding send_data_to_clients client_channel
  publish_loop [] messages sent = sent
  publish_loop (name ∷ names) messages sent =
      publish_loop names messages (send_data_to_clients (client_channel name) messages sent)

  -- publish
  unfoldable pub publish_block : Block → Consumer → List Publication → List Publication
  unfolding publish_loop
  publish_block block c sent = publish_loop c.client_names block.messages sent
