-- ===== src/Redis/Chain.antt =====
-- A block's life in the database: placeholder, completed block, or nothing.
use blockchain_messaging_sys.Prelude.{
  get_elem?-set, ℕ, ◌-◌, ◌^◌, ◌<◌, ◌≡◌, refl, ap, ◌∙◌, List, [], ◌∷◌, ◌++◌, some, Str, ok, arith,
  length, length-append, get_elem?, set,
}
use blockchain_messaging_sys.Itf.{Block}
use blockchain_messaging_sys.Serialization.{Archive, ArchiveLaws, block_class, serialize}
use blockchain_messaging_sys.Serialization.RoundTrip.{block_class-laws}
use blockchain_messaging_sys.Io.Wrappers.RoundTrip.{deserialize-serialize}
use blockchain_messaging_sys.Redis.{
  Redis, RedisLaws, Index, int_index, add, update, get_by_index, singleton_of,
}

get_elem?-append_last {ℓ} :
    {A : Type ℓ} (xs : List A) (x : A) → get_elem? (xs ++ x ∷ []) (length xs) ≡ some x
get_elem?-append_last [] x = refl
get_elem?-append_last (y ∷ xs) x = get_elem?-append_last xs x

set-append_last {ℓ} :
    {A : Type ℓ} (xs : List A) (x y : A) → set (xs ++ x ∷ []) (length xs) y ≡ xs ++ y ∷ []
set-append_last [] x y = refl
set-append_last (z ∷ xs) x y = ap (◌∷◌ z) (set-append_last xs x y)

int_index_small : (i : ℕ) → i < 2 ^ 31 → int_index i ≡ Index.from_start i
unfolding int_index
int_index_small i h = ground arith

module _ (archive : Archive) (laws : ArchiveLaws archive) (redis : Redis)
    (rlaws : RedisLaws redis) where
  open rlaws use {elements, rpush_elements, rpush_length, lset_elements, lrange_element}

  -- `add` appends the block's text, and the last index is the returned size less one.
  pub add_lem :
      (key : Str) (b : Block) (db : redis.Store)
      → (elements key (add archive redis b key db).0
          ≡ elements key db ++ serialize archive block_class b ∷ [])
        × ((add archive redis b key db).1 - 1 ≡ length (elements key db))
  unfolding add
  add_lem key b db = (
    rpush_elements key (serialize archive block_class b ∷ []) db,
    omega (
      arith,
      rpush_length key (serialize archive block_class b ∷ []) db,
      length-append (elements key db) (serialize archive block_class b ∷ []),
    ),
  )

  -- `update` at the last index succeeds, and puts the block's text in place of the last one.
  pub update_last :
      (key : Str) (xs : List Str) (text : Str) (complete : Block) (db : redis.Store)
      → elements key db ≡ xs ++ text ∷ []
      → (db' : redis.Store) × (update archive redis complete (length xs) key db ≡ ok db')
        × (elements key db' ≡ xs ++ serialize archive block_class complete ∷ [])
  unfolding update
  update_last key xs text complete db e =
      let text' : Str = serialize archive block_class complete in
      let (db', stored', e') =
        lset_elements key text' (length xs) db
          (omega (arith, ap length e, length-append xs (text ∷ []))) in
      (
        db',
        rw stored' refl,
        e' ∙ ap (λ (l : List Str). set l (length xs) text') e ∙ set-append_last xs text text',
      )

  -- A list that ends in a block's text is read at its last index as that block.
  pub read_last :
      (key : Str) (xs : List Str) (b : Block) (db : redis.Store)
      → elements key db ≡ xs ++ serialize archive block_class b ∷ []
      → length xs < 2 ^ 31
      → get_by_index archive redis (length xs) key db ≡ ok (some b)
  unfolding get_by_index
  read_last key xs b db e h =
      let text : Str = serialize archive block_class b in
      let found : redis.lrange key (Index.from_start (length xs)) (Index.from_start (length xs)) db
          ≡ text ∷ [] =
        lrange_element key (length xs) db
        ∙ ap (λ (l : List Str). singleton_of (get_elem? l (length xs))) e
        ∙ ap singleton_of (get_elem?-append_last xs text) in
      rw (int_index_small (length xs) h)
        (rw found (rw (deserialize-serialize archive laws block_class block_class-laws b) refl))

  -- An update inside the list is read back.
  pub update-get :
      (key : Str) (i : ℕ) (b : Block) (db : redis.Store)
      → i < length (elements key db)
      → i < 2 ^ 31
      → (db' : redis.Store) × (update archive redis b i key db ≡ ok db')
        × (get_by_index archive redis i key db' ≡ ok (some b))
  unfolding update get_by_index
  update-get key i b db inside small =
      let text : Str = serialize archive block_class b in
      let (db', updated, e) = lset_elements key text i db inside in
      let found : redis.lrange key (Index.from_start i) (Index.from_start i) db' ≡ text ∷ [] =
        lrange_element key i db'
        ∙ ap (λ (l : List Str). singleton_of (get_elem? l i)) e
        ∙ ap singleton_of (get_elem?-set (elements key db) i text inside) in
      (
        db',
        rw updated refl,
        rw (int_index_small i small) (
            rw found (rw (deserialize-serialize archive laws block_class block_class-laws b) refl)),
      )

  -- With fewer than 2 ^ 31 blocks under the key: the placeholder that `add` appends is read back at
  -- the index that is the returned size less one; `update` at that index succeeds, the completed
  -- block is then read there, and the earlier blocks are unchanged.
  pub update-add :
      (key : Str) (placeholder complete : Block) (db : redis.Store)
      → length (elements key db) < 2 ^ 31
      → (db' : redis.Store) × (get_by_index archive redis
            ((add archive redis placeholder key db).1 - 1)
            key
            (add archive redis placeholder key db).0
          ≡ ok (some placeholder))
        × (update archive redis complete
              ((add archive redis placeholder key db).1 - 1)
              key
              (add archive redis placeholder key db).0
            ≡ ok db')
        × (get_by_index archive redis ((add archive redis placeholder key db).1 - 1) key db'
            ≡ ok (some complete))
        × (elements key db' ≡ elements key db ++ serialize archive block_class complete ∷ [])
  update-add key placeholder complete db h =
      let xs : List Str = elements key db in
      let db1 : redis.Store = (add archive redis placeholder key db).0 in
      let (e1, index) = add_lem key placeholder db in
      let (db2, updated, e2) =
        update_last key xs (serialize archive block_class placeholder) complete db1 e1 in
      rw index (
        db2,
        read_last key xs placeholder db1 e1 h,
        updated,
        read_last key xs complete db2 e2 h,
        e2,
      )
