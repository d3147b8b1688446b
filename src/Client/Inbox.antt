-- ===== src/Client/Inbox.antt =====
-- common/Buffer.hpp, the buffer between the client's AMQP thread and its timer. Each operation runs
-- under the buffer's mutex, and is one step.
use blockchain_messaging_sys.Prelude.{ℕ, ◌%◌, ◌^◌, Bool, true, false, List, [], ◌∷◌, ◌++◌, length}

pub record Buffer (A : Type 0) : Type 0 where
  pub entries : List A

module _ {A : Type 0} where
  abbrev pub empty_buffer : Buffer A
  empty_buffer = record { entries = [] }

  unfoldable pub push_back : A → Buffer A → Buffer A
  push_back message b = record { entries = b.entries ++ message ∷ [] }

  abbrev pub is_nil : List A → Bool
  is_nil [] = true
  is_nil (x ∷ xs) = false

  unfoldable pub is_empty : Buffer A → Bool
  is_empty b = is_nil b.entries

  -- The size is converted to `int`: its value modulo 2^32, which is negative from 2^31 on.
  unfoldable pub get_size : Buffer A → ℕ
  get_size b = length b.entries % 2 ^ 32

  unfoldable pub clear_buffer : Buffer A → Buffer A
  clear_buffer b = record { entries = [] }

  unfoldable pub get_data : Buffer A → List A
  get_data b = b.entries
