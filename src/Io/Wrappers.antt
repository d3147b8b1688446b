-- ===== src/Io/Wrappers.antt =====
-- The header of a consensus message (node/src/io/Header.hpp, ConsensusOperation.hpp), the two
-- wrappers, and the `serialize` function of each. io::Header is `ConsensusHeader` here.
pub mod RoundTrip
use blockchain_messaging_sys.Prelude.{ℕ, zero, suc, Bool, List, [], ◌∷◌, Option, none, some, Str}
use blockchain_messaging_sys.Serialization.{Field, Serializable}

pub data ConsensusOperation : Type 0 where
  inspection election uploading broadcast : ConsensusOperation

pub record ConsensusHeader : Type 0 where
  pub operation : ConsensusOperation
  pub node : Str
  pub address : Str
  pub timestamp : ℕ
  pub slot : ℕ

pub record ContributionWrapper : Type 0 where
  pub is_contributing : Bool

pub record ElectionValueWrapper : Type 0 where
  pub value : ℕ

unfoldable pub write_operation : ConsensusOperation → ℕ
write_operation ConsensusOperation.inspection = 0
write_operation ConsensusOperation.election = 1
write_operation ConsensusOperation.uploading = 2
write_operation ConsensusOperation.broadcast = 3

unfoldable pub read_operation : ℕ → Option ConsensusOperation
read_operation zero = some ConsensusOperation.inspection
read_operation (suc zero) = some ConsensusOperation.election
read_operation (suc (suc zero)) = some ConsensusOperation.uploading
read_operation (suc (suc (suc zero))) = some ConsensusOperation.broadcast
read_operation (suc (suc (suc (suc n)))) = none

-- The order of the source: the address comes before the node.
unfoldable pub write_consensus_header : ConsensusHeader → List Field
unfolding write_operation
write_consensus_header h =
    Field.num (write_operation h.operation)
    ∷ Field.str h.address
    ∷ Field.str h.node
    ∷ Field.num h.timestamp
    ∷ Field.num h.slot
    ∷ []

unfoldable pub read_consensus_header : List Field → Option (ConsensusHeader × List Field)
unfolding read_operation
read_consensus_header (Field.num o ∷ Field.str a ∷ Field.str n ∷ Field.num t ∷ Field.num s ∷ rest) =
    elim (read_operation o) [
      | none ↦ none
      | some operation ↦
          some
            (record { operation = operation; node = n; address = a; timestamp = t; slot = s }, rest)
    ]
read_consensus_header _ = none

unfoldable pub write_contribution : ContributionWrapper → List Field
write_contribution w = Field.flag w.is_contributing ∷ []

unfoldable pub read_contribution : List Field → Option (ContributionWrapper × List Field)
read_contribution (Field.flag b ∷ rest) = some (record { is_contributing = b }, rest)
read_contribution _ = none

unfoldable pub write_election_value : ElectionValueWrapper → List Field
write_election_value w = Field.num w.value ∷ []

unfoldable pub read_election_value : List Field → Option (ElectionValueWrapper × List Field)
read_election_value (Field.num v ∷ rest) = some (record { value = v }, rest)
read_election_value _ = none

abbrev pub consensus_header_class : Serializable ConsensusHeader
consensus_header_class = record { write = write_consensus_header; read = read_consensus_header }

abbrev pub contribution_class : Serializable ContributionWrapper
contribution_class = record { write = write_contribution; read = read_contribution }

abbrev pub election_value_class : Serializable ElectionValueWrapper
election_value_class = record { write = write_election_value; read = read_election_value }
