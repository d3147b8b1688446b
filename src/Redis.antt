-- ===== src/Redis.antt =====
-- db::RedisDB (node/src/db/RedisDB.cpp). The server and its client library are not part of the
-- repository: they are the parameter `Redis`, whose documented behaviour is `RedisLaws`.
pub mod Samples
pub mod Chain
use blockchain_messaging_sys.Prelude.{
  ℕ, zero, suc, ◌+◌, ◌-◌, ◌%◌, ◌^◌, ◌<◌, ◌≡◌, ◌≢◌, List, [], ◌∷◌, ◌++◌, Option, none, some, Str,
  str_dec, ite, ltb, if◌then◌else◌, Result, ok, fault, Fault, ◌>>=◌, length, get_elem?, set,
}
use blockchain_messaging_sys.Itf.{Block}
use blockchain_messaging_sys.Serialization.{
  Archive, block_class, serialize, deserialize, deserialize_all,
}

-- A signed index into a list of the database: from its start, or from its end as a negative number.
pub data Index : Type 0 where
  from_start : ℕ → Index
  from_end : ℕ → Index

pub record Redis : Type 1 where
  pub Store : Type 0
  pub rpush : Str → List Str → Store → Store × ℕ
  pub lset : Str → Index → Str → Store → Option Store
  pub lrem : Str → ℕ → Str → Store → Store
  pub lrange : Str → Index → Index → Store → List Str
  pub save : Store → Store

-- `lrem key 1 value` drops the first element that is the value.
abbrev pub remove_first : Str → List Str → List Str
remove_first v [] = []
remove_first v (x ∷ xs) = ite (str_dec x v) xs (x ∷ remove_first v xs)

abbrev pub singleton_of : Option Str → List Str
singleton_of none = []
singleton_of (some x) = x ∷ []

-- What the commands do to the list that a key holds.
pub record RedisLaws (redis : Redis) : Type 0 where
  pub elements : Str → redis.Store → List Str
  pub rpush_elements :
      (key : Str) (values : List Str) (db : redis.Store)
      → elements key (redis.rpush key values db).0 ≡ elements key db ++ values
  pub rpush_length :
      (key : Str) (values : List Str) (db : redis.Store)
      → (redis.rpush key values db).1 ≡ length (elements key db ++ values)
  pub lset_elements :
      (key value : Str) (i : ℕ) (db : redis.Store)
      → i < length (elements key db)
      → (db' : redis.Store) × (redis.lset key (Index.from_start i) value db ≡ some db')
        × (elements key db' ≡ set (elements key db) i value)
  pub lrem_elements :
      (key value : Str) (db : redis.Store)
      → elements key (redis.lrem key 1 value db) ≡ remove_first value (elements key db)
  pub lrange_element :
      (key : Str) (i : ℕ) (db : redis.Store)
      → redis.lrange key (Index.from_start i) (Index.from_start i) db
        ≡ singleton_of (get_elem? (elements key db) i)

-- `const int index` of a `long long`: the low 32 bits, as a signed number.
unfoldable pub int_index : ℕ → Index
int_index i =
    let low : ℕ = i % 2 ^ 32 in
    if ltb low (2 ^ 31) then Index.from_start low else Index.from_end (2 ^ 32 - low)

module _ (archive : Archive) (redis : Redis) where
  abbrev Store : Type 0
  Store = redis.Store

  -- add
  unfoldable pub add : Block → Str → Store → Store × ℕ
  unfolding serialize
  add block blockchain db = redis.rpush blockchain (serialize archive block_class block ∷ []) db

  stored : Option Store → Result Store
  stored none = fault Fault.database_error
  stored (some db) = ok db

  -- update: an index past the end is an error reply, which throws.
  unfoldable pub update : Block → ℕ → Str → Store → Result Store
  unfolding stored serialize
  update block index blockchain db =
      stored
        (redis.lset blockchain (Index.from_start index) (serialize archive block_class block) db)

  -- remove
  unfoldable pub remove_block : Block → Str → Store → Store
  unfolding serialize
  remove_block block blockchain db =
      redis.lrem blockchain 1 (serialize archive block_class block) db

  first_block : List Str → Result (Option Block)
  unfolding deserialize
  first_block [] = ok none
  first_block (text ∷ _) = do block ← deserialize archive block_class text; ok (some block)

  -- getByIndex
  unfoldable pub get_by_index : ℕ → Str → Store → Result (Option Block)
  unfolding first_block int_index
  get_by_index index blockchain db =
      first_block (redis.lrange blockchain (int_index index) (int_index index) db)

  -- get: the last blocks, through the vector deserializer
  unfoldable pub get : Str → ℕ → Store → Result (List Block)
  unfolding deserialize_all
  get blockchain number_of_blocks db =
      deserialize_all archive block_class
        (redis.lrange blockchain (Index.from_end number_of_blocks) (Index.from_end 1) db)
