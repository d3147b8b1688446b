-- ===== src/Client/Reach.antt =====
-- From the client's terminal to the node: a command line, what it publishes, and what the node's
-- consumer (node/src/Consumer.cpp) makes of it.
use mathlib.Core.List.{append-nil}
use blockchain_messaging_sys.Prelude.{
  ℕ, false, List, [], ◌∷◌, ◌++◌, Str, str_dec, codes, ok, ◌≡◌, refl, sym, ap, ◌∙◌, if_pos,
}
use blockchain_messaging_sys.Itf.{Message, Header}
use blockchain_messaging_sys.Serialization.{
  Archive, ArchiveLaws, NewlineLaws, message_class, header_class, serialize, deserialize,
}
use blockchain_messaging_sys.Serialization.RoundTrip.{header_class-laws, message_class-laws}
use blockchain_messaging_sys.Io.Wrappers.RoundTrip.{deserialize-serialize}
use blockchain_messaging_sys.Buffer.{Buffer, push}
use blockchain_messaging_sys.Consumer.{
  Consumer, at, create_channel, control_channel, handle_control_message, on_client_message,
}
use blockchain_messaging_sys.Text.{is_space, to_lower}
use blockchain_messaging_sys.Text.Words.{Reads, IsWord, IsFree, tokenize_by_space_iff}
use blockchain_messaging_sys.Text.Tokens.{TokenizerLaws, is_char}
use blockchain_messaging_sys.Client.{
  Client, ClientInfo, publish_message, serialize_data, header_to, message_of, create_queue,
  send_message,
}
use blockchain_messaging_sys.Client.Command.{init, send, operate, run_words, run_command}

-- The two commands that send something.
pub data Command : Type 0 where
  init_command : Str → Command
  send_command : Str → Str → Command

-- A line that spells the command, with its first word in upper or lower case.
abbrev pub Spells : Command → Str → Type 0
Spells (init_command que) line =
    (word : Str) × Reads is_space (word ∷ que ∷ []) line × (to_lower word ≡ codes "init")
Spells (send_command que body) line =
    (word : Str) × Reads is_space (word ∷ que ∷ body ∷ []) line × (to_lower word ≡ codes "send")

abbrev pub queue_of : Command → ClientInfo → Str
queue_of (init_command que) info = control_channel info.server_name
queue_of (send_command que body) info = que

abbrev pub header_of : Command → ClientInfo → Header
header_of (init_command que) info =
    header_to (codes "CreateChannel") (control_channel info.server_name) info
header_of (send_command que body) info = header_to (codes "Send") que info

abbrev pub content_of : Command → ℕ → ClientInfo → Message
content_of (init_command que) now info = message_of now que info
content_of (send_command que body) now info = message_of now body info

module _ (archive : Archive) (tokenize : Str → Str → List Str) (archive_laws : ArchiveLaws archive)
    (newline_laws : NewlineLaws archive) (tokenizer_laws : TokenizerLaws tokenize) where
  -- No `@` stands in the archives of the header and of the message, which is so where the texts
  -- that they hold have none.
  abbrev pub IsSeparable : Header → Message → Type 0
  IsSeparable header message =
      IsWord (is_char b'@') (serialize archive header_class header)
      × IsFree (is_char b'@') (serialize archive message_class message)

  with_newline : (s : Str) → IsFree (is_char b'@') s → IsWord (is_char b'@') (s ++ 10 ∷ [])
  with_newline [] h = (refl, tt)
  with_newline (c ∷ s) (h, more) = (h, snoc s more)
    where
      snoc : (s : Str) → IsFree (is_char b'@') s → IsFree (is_char b'@') (s ++ 10 ∷ [])
      snoc [] h = (refl, tt)
      snoc (c ∷ s) (h, more) = (h, snoc s more)

  -- The node takes the two parts of the client's text apart.
  tokens_of :
      (header : Header) (message : Message)
      → IsSeparable header message
      → tokenize (serialize_data archive header message) (codes "@")
        ≡ serialize archive header_class header
          ∷ (serialize archive message_class message ++ 10 ∷ [])
          ∷ []
  unfolding serialize_data
  tokens_of header message (h, m) =
      tokenizer_laws.token b'@' _ _ h
      ∙ ap (◌∷◌ (serialize archive header_class header))
          (tokenizer_laws.last_token b'@' _ (with_newline _ m))

  message_ended :
      (m : Message)
      → deserialize archive message_class (serialize archive message_class m ++ 10 ∷ []) ≡ ok m
  unfolding deserialize serialize
  message_ended m =
      rw (newline_laws.ended (message_class.write m), deserialize)
        (rw (ap message_class.read (sym (append-nil (message_class.write m))))
          (rw (message_class-laws.read_write m []) refl))

  control_lem :
      (header : Header) (message : Message) (consumer : Consumer)
      → IsSeparable header message
      → header.target ≡ codes "CreateChannel"
      → handle_control_message archive tokenize (serialize_data archive header message) consumer
        ≡ ok (create_channel message.body message.author consumer)
  unfolding handle_control_message at
  control_lem header message consumer separable e = rw (tokens_of header message separable) (
      rw (deserialize-serialize archive archive_laws header_class header_class-laws header) (
        rw (message_ended message)
          (rw (if_pos (str_dec header.target (codes "CreateChannel")) e) refl)))

  content_lem :
      (header : Header) (message : Message) (buffer : Buffer)
      → IsSeparable header message
      → on_client_message archive tokenize (serialize_data archive header message) buffer
        ≡ ok (push message buffer)
  unfolding on_client_message at
  content_lem header message buffer separable =
      rw (tokens_of header message separable) (rw (message_ended message) refl)

  -- What a node that takes the text of the command does.
  abbrev pub Handled : Command → ℕ → Str → Str → Consumer → Buffer → Type 0
  Handled (init_command que) now client_name text consumer buffer =
      handle_control_message archive tokenize text consumer
      ≡ ok (create_channel que client_name consumer)
  Handled (send_command que body) now client_name text consumer buffer =
      on_client_message archive tokenize text buffer
      ≡ ok (push (record { timestamp = now; body = body; author = client_name }) buffer)

  handled_lem :
      (command : Command) (now : ℕ) (info : ClientInfo) (consumer : Consumer) (buffer : Buffer)
      → IsSeparable (header_of command info) (content_of command now info)
      → Handled command now info.client_name
          (serialize_data archive (header_of command info) (content_of command now info))
          consumer
          buffer
  unfolding header_to message_of
  handled_lem (init_command que) now info consumer buffer separable =
      control_lem (header_of (init_command que) info) (content_of (init_command que) now info)
        consumer separable refl
  handled_lem (send_command que body) now info consumer buffer separable =
      content_lem (header_of (send_command que body) info)
        (content_of (send_command que body) now info) buffer separable

  published_lem :
      (command : Command) (now : ℕ) (line : Str) (c : Client)
      → Spells command line
      → run_command archive now line c
        ≡ ok (
          record c {
            amqp_handler =
                publish_message
                  (queue_of command c.client_info)
                  (serialize_data archive
                    (header_of command c.client_info)
                    (content_of command now c.client_info))
                  c.amqp_handler;
          },
          false,
        )
  unfolding run_command run_words operate init send create_queue send_message str_dec
      control_channel
  published_lem (init_command que) now line c (word, reads, lower) =
      rw ((tokenize_by_space_iff line (word ∷ que ∷ [])).1 reads) (rw lower refl)
  published_lem (send_command que body) now line c (word, reads, lower) =
      rw ((tokenize_by_space_iff line (word ∷ que ∷ body ∷ [])).1 reads) (rw lower refl)

  -- A command line `init <queue>` or `send <queue> <word>`, its first word in upper or lower case,
  -- publishes one text and changes nothing else in the client: `init` to the control queue that the
  -- server of that name consumes, `send` to the queue it names. A node that takes the text of `init` creates the channel
  -- of that name for the client; one that takes the text of `send` puts the message, with the
  -- client's name and the time, into its buffer. No `@` stands in the archives of header and message.
  pub command_reaches :
      (command : Command) (now : ℕ) (line : Str) (c : Client) (consumer : Consumer)
      (buffer : Buffer)
      → Spells command line
      → IsSeparable (header_of command c.client_info) (content_of command now c.client_info)
      → (text : Str) × (run_command archive now line c
          ≡ ok (
            record c {
              amqp_handler = publish_message (queue_of command c.client_info) text c.amqp_handler;
            },
            false,
          ))
        × Handled command now c.client_info.client_name text consumer buffer
  command_reaches command now line c consumer buffer spells separable = (
    serialize_data archive (header_of command c.client_info) (content_of command now c.client_info),
    published_lem command now line c spells,
    handled_lem command now c.client_info consumer buffer separable,
  )
