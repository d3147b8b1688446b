-- ===== src/Io/Wrappers/RoundTrip.antt =====
-- What a node writes into a consensus message, another node reads.
use mathlib.Core.List.{append-nil}
use blockchain_messaging_sys.Prelude.{◌≡◌, refl, ap, sym, ◌∙◌, List, ◌++◌, some, ok}
use blockchain_messaging_sys.Itf.{Message, Block, Header}
use blockchain_messaging_sys.Serialization.{
  Field, Archive, ArchiveLaws, Serializable, serialize, deserialize, block_class, message_class,
  header_class,
}
use blockchain_messaging_sys.Serialization.RoundTrip.{
  SerializableLaws, block_class-laws, message_class-laws, header_class-laws,
}
use blockchain_messaging_sys.Io.Wrappers.{
  ConsensusOperation, ConsensusHeader, ContributionWrapper, ElectionValueWrapper, read_operation,
  write_operation, read_consensus_header, write_consensus_header, read_contribution,
  write_contribution, read_election_value, write_election_value, consensus_header_class,
  contribution_class, election_value_class,
}

read_operation_write : (o : ConsensusOperation) → read_operation (write_operation o) ≡ some o
unfolding read_operation write_operation
read_operation_write ConsensusOperation.inspection = refl
read_operation_write ConsensusOperation.election = refl
read_operation_write ConsensusOperation.uploading = refl
read_operation_write ConsensusOperation.broadcast = refl

read_header_write :
    (h : ConsensusHeader) (rest : List Field)
    → read_consensus_header (write_consensus_header h ++ rest) ≡ some (h, rest)
unfolding read_consensus_header write_consensus_header
read_header_write h rest = rw (read_operation_write h.operation, read_consensus_header) refl

pub consensus_header_class-laws : SerializableLaws consensus_header_class
consensus_header_class-laws = record { read_write = read_header_write }

pub contribution_class-laws : SerializableLaws contribution_class
unfolding read_contribution write_contribution
contribution_class-laws = record { read_write = λ w rest. refl }

pub election_value_class-laws : SerializableLaws election_value_class
unfolding read_election_value write_election_value
election_value_class-laws = record { read_write = λ w rest. refl }

-- Over an archive that reads back what it writes, `deserialize` gives back what `serialize` wrote.
pub deserialize-serialize :
    (archive : Archive)
    → ArchiveLaws archive
    → {A : Type 0} (cls : Serializable A) → SerializableLaws cls
    → (a : A) → deserialize archive cls (serialize archive cls a) ≡ ok a
unfolding deserialize serialize
deserialize-serialize archive laws cls cls_laws a =
    let e : cls.read (cls.write a) ≡ some (a, List.[]) =
      ap cls.read (sym (append-nil (cls.write a))) ∙ cls_laws.read_write a List.[] in
    rw (laws.round_trip (cls.write a), deserialize) (rw e refl)

-- Over an archive that reads back what it writes, every kind of value that the program serializes
-- (a block, a message, a client's header, a consensus header, a contribution, an election value)
-- is given back by its deserializer, with every field and, in a block, every message.
pub every_class_round_trip :
    (archive : Archive)
    → ArchiveLaws archive
    → (b : Block) (m : Message) (h : Header) (c : ConsensusHeader) (w : ContributionWrapper)
      (v : ElectionValueWrapper)
    → (deserialize archive block_class (serialize archive block_class b) ≡ ok b)
      × (deserialize archive message_class (serialize archive message_class m) ≡ ok m)
      × (deserialize archive header_class (serialize archive header_class h) ≡ ok h)
      × (deserialize archive consensus_header_class (serialize archive consensus_header_class c)
          ≡ ok c)
      × (deserialize archive contribution_class (serialize archive contribution_class w) ≡ ok w)
      × (deserialize archive election_value_class (serialize archive election_value_class v) ≡ ok v)
every_class_round_trip archive laws b m h c w v = (
  deserialize-serialize archive laws block_class block_class-laws b,
  deserialize-serialize archive laws message_class message_class-laws m,
  deserialize-serialize archive laws header_class header_class-laws h,
  deserialize-serialize archive laws consensus_header_class consensus_header_class-laws c,
  deserialize-serialize archive laws contribution_class contribution_class-laws w,
  deserialize-serialize archive laws election_value_class election_value_class-laws v,
)
