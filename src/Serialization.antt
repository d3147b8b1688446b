-- ===== src/Serialization.antt =====
-- common/serialization/Serializer.hpp and the `serialize` functions of the classes that it is
-- used at. Boost's text archive is not part of the repository: it is the parameter `Archive`,
-- which takes a sequence of primitive values to text and back. An archive's vector is its length
-- followed by its elements.
pub mod Samples
pub mod RoundTrip
use blockchain_messaging_sys.Prelude.{
  ℕ, zero, suc, ◌≡◌, Bool, true, false, List, [], ◌∷◌, ◌++◌, Option, none, some, Str, length,
  Result, ok, fault, Fault, get_elem?,
}
use blockchain_messaging_sys.Itf.{Message, Block, BlockState, Header}

pub data Field : Type 0 where
  num : ℕ → Field
  flag : Bool → Field
  str : Str → Field

pub record Archive : Type 0 where
  pub encode : List Field → Str
  pub decode : Str → Option (List Field)

-- What is written to an archive is read back.
pub record ArchiveLaws (archive : Archive) : Type 0 where
  pub round_trip : (fs : List Field) → archive.decode (archive.encode fs) ≡ some fs

-- An archive is read up to its last value: a newline that follows it is not looked at.
pub record NewlineLaws (archive : Archive) : Type 0 where
  pub ended : (fs : List Field) → archive.decode (archive.encode fs ++ 10 ∷ []) ≡ some fs

-- A class with its `serialize(archive, object, version)`: what `&` writes, and what it reads.
pub record Serializable (A : Type 0) : Type 0 where
  pub write : A → List Field
  pub read : List Field → Option (A × List Field)

unfoldable pub write_message : Message → List Field
write_message m = Field.num m.timestamp ∷ Field.str m.body ∷ Field.str m.author ∷ []

unfoldable pub read_message : List Field → Option (Message × List Field)
read_message (Field.num t ∷ Field.str d ∷ Field.str a ∷ rest) =
    some (record { timestamp = t; body = d; author = a }, rest)
read_message _ = none

unfoldable pub write_messages : List Message → List Field
unfolding write_message
write_messages [] = []
write_messages (m ∷ ms) = write_message m ++ write_messages ms

and_messages : Message → Option (List Message × List Field) → Option (List Message × List Field)
and_messages m none = none
and_messages m (some (ms, rest)) = some (m ∷ ms, rest)

unfoldable pub read_messages : ℕ → List Field → Option (List Message × List Field)
unfolding read_message and_messages
read_messages zero fs = some ([], fs)
read_messages (suc n) fs = elim (read_message fs) [
  | none ↦ none
  | some (m, rest) ↦ and_messages m (read_messages n rest)
]

-- An enumerator is written as its number.
unfoldable pub write_state : BlockState → ℕ
write_state BlockState.pending = 0
write_state BlockState.completed = 1

unfoldable pub read_state : ℕ → Option BlockState
read_state zero = some BlockState.pending
read_state (suc zero) = some BlockState.completed
read_state (suc (suc n)) = none

unfoldable pub write_block : Block → List Field
unfolding write_state write_messages
write_block b =
    Field.num (write_state b.state)
    ∷ Field.num b.timestamp
    ∷ Field.num b.slot
    ∷ Field.num (length b.messages)
    ∷ write_messages b.messages

read_block_parts :
    Option BlockState → ℕ → ℕ → Option (List Message × List Field) → Option (Block × List Field)
read_block_parts (some s) t n (some (ms, rest)) =
    some (record { state = s; timestamp = t; slot = n; messages = ms }, rest)
read_block_parts _ _ _ _ = none

unfoldable pub read_block : List Field → Option (Block × List Field)
unfolding read_state read_messages read_block_parts
read_block (Field.num s ∷ Field.num t ∷ Field.num n ∷ Field.num k ∷ rest) =
    read_block_parts (read_state s) t n (read_messages k rest)
read_block _ = none

unfoldable pub write_header : Header → List Field
write_header h =
    Field.str h.target
    ∷ Field.str h.server_name
    ∷ Field.str h.que_name
    ∷ Field.str h.client_address
    ∷ []

unfoldable pub read_header : List Field → Option (Header × List Field)
read_header (Field.str t ∷ Field.str s ∷ Field.str q ∷ Field.str c ∷ rest) =
    some (record { target = t; server_name = s; que_name = q; client_address = c }, rest)
read_header _ = none

abbrev pub message_class : Serializable Message
message_class = record { write = write_message; read = read_message }

abbrev pub block_class : Serializable Block
block_class = record { write = write_block; read = read_block }

abbrev pub header_class : Serializable Header
header_class = record { write = write_header; read = read_header }

module _ (archive : Archive) {A : Type 0} (cls : Serializable A) where
  -- Serializer<Data>::serialize(const Data &)
  unfoldable pub serialize : A → Str
  serialize a = archive.encode (cls.write a)

  -- Serializer<Data>::deserialize(const std::string &): a text that is no archive of the class
  -- throws; what follows the object is not read.
  unfoldable pub deserialize : Str → Result A
  deserialize text = elim (archive.decode text) [
    | none ↦ fault Fault.archive_error
    | some fs ↦ elim (cls.read fs) [ none ↦ fault Fault.archive_error | some (a, rest) ↦ ok a ]
  ]

  -- Serializer<Data>::deserialize(const std::vector<std::string> &): `std::transform` writes
  -- through the `begin()` of an empty vector, which is valid for an empty input only.
  unfoldable pub deserialize_all : List Str → Result (List A)
  deserialize_all [] = ok []
  deserialize_all (text ∷ texts) = fault Fault.invalid_iterator

  -- Serializer<Data>::serialize(const std::vector<Data> &), with the same fault.
  unfoldable pub serialize_all : List A → Result (List Str)
  serialize_all [] = ok []
  serialize_all (a ∷ rest) = fault Fault.invalid_iterator
