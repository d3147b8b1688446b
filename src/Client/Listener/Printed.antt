-- ===== src/Client/Listener/Printed.antt =====
-- From the node to the client's terminal: Consumer::publish (node/src/Consumer.cpp) and the turn of
-- `handleBufferedData` that follows.
use blockchain_messaging_sys.Prelude.{List, [], ◌∷◌, Str}
use blockchain_messaging_sys.Itf.{Message}
use blockchain_messaging_sys.Serialization.{Archive, ArchiveLaws, message_class, serialize}
use blockchain_messaging_sys.Consumer.{Consumer}
use blockchain_messaging_sys.Text.Words.{IsWord}
use blockchain_messaging_sys.Text.Tokens.{TokenizerLaws, is_char}
use blockchain_messaging_sys.Client.Listener.{Line, Listener, Event}

-- A turn of the handler, and the line of a message.
abbrev pub turn : List Event
turn = Event.works ∷ Event.works ∷ Event.works ∷ Event.works ∷ []

abbrev pub line_of : Message → Line
line_of m = (m.author, m.body)

module _ (archive : Archive) (tokenize : Str → Str → List Str) (archive_laws : ArchiveLaws archive)
    (tokenizer_laws : TokenizerLaws tokenize) where
  abbrev pub IsPlain : Message → Type 0
  IsPlain m = IsWord (is_char b'@') (serialize archive message_class m)

  texts_of : List Message → List Str
  texts_of [] = []
  texts_of (m ∷ ms) = serialize archive message_class m ∷ texts_of ms
