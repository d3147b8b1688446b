-- ===== src/Redis/Samples.antt =====
-- A concrete database for one key, with the documented behaviour: the list itself.
use blockchain_messaging_sys.Prelude.{
  ℕ, ◌<◌, ◌≡◌, refl, List, [], ◌++◌, Option, none, some, Str, ite, length, get_elem?, set, dec_lt,
  if_pos,
}
use blockchain_messaging_sys.Redis.{Index, Redis, RedisLaws, remove_first, singleton_of}

abbrev sample_set : Index → Str → List Str → Option (List Str)
sample_set (Index.from_start i) value db = ite (dec_lt i (length db)) (some (set db i value)) none
sample_set (Index.from_end i) value db = none

abbrev sample_range : Index → Index → List Str → List Str
sample_range (Index.from_start i) j db = singleton_of (get_elem? db i)
sample_range (Index.from_end i) j db = []

abbrev pub sample_redis : Redis
sample_redis = record {
  Store = List Str;
  rpush = λ key values db. (db ++ values, length (db ++ values));
  lset = λ key i value db. sample_set i value db;
  lrem = λ key n value db. remove_first value db;
  lrange = λ key i j db. sample_range i j db;
  save = λ db. db;
}

pub sample_lset :
    (value : Str) (i : ℕ) (db : List Str)
    → i < length db
    → sample_set (Index.from_start i) value db ≡ some (set db i value)
sample_lset value i db h = if_pos (dec_lt i (length db)) h _ _

abbrev pub sample_redis-laws : RedisLaws sample_redis
sample_redis-laws = record {
  elements = λ key db. db;
  rpush_elements = λ key values db. refl;
  rpush_length = λ key values db. refl;
  lset_elements = λ key value i db h. (set db i value, sample_lset value i db h, refl);
  lrem_elements = λ key value db. refl;
  lrange_element = λ key i db. refl;
}
