-- ===== src/Prelude/Results.antt =====
-- Failure: what the code throws, or leaves undefined, as a value.
-- `std::bad_optional_access`, `std::out_of_range`, a null pointer read or written, a `std::string`
-- made from a null pointer, `*begin()` of an empty container, an archive that does not parse, an
-- error reply of the database, a write through an iterator that points at nothing, a lock that its
-- owner takes again.
pub data Fault : Type 0 where
  bad_optional_access out_of_range null_pointer null_string empty_range archive_error : Fault
  database_error invalid_iterator deadlock invalid_address : Fault

pub data Result {ℓ} (A : Type ℓ) : Type ℓ where
  ok : A → Result A
  fault : Fault → Result A

infixl 5 ◌>>=◌
abbrev pub ◌>>=◌ {ℓ κ} : {B : Type κ} {A : Type ℓ} → Result A → (A → Result B) → Result B
fault e >>= next = fault e
ok a >>= next = next a
