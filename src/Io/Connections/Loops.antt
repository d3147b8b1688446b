-- ===== src/Io/Connections/Loops.antt =====
-- Each event loop has one owner and is destroyed once.
use mathlib.Core.List.{perm_middle, append_assoc, append-nil}
use mathlib.Core.List.Perm
use blockchain_messaging_sys.Prelude.{
  ◌∙◌, ◌+◌, inl, inr, ◌⊎◌, ◌≢◌, Option, ℕ, zero, suc, ◌≡◌, refl, Bool, true, false, List, [], ◌∷◌,
  ◌++◌, none, some, Str, str_dec, Map, find, Perm, arith, if◌then◌else◌, length, subst,
}
use blockchain_messaging_sys.Itf.{NodeInfo}
use blockchain_messaging_sys.Io.Connections.{
  ConnectionData, ConnectionStore, EventLoops, empty_connection_store, push_connection,
  destroy_connections, destroy_connection_data,
}

-- The loops of the first n calls of `ev_loop_new`.
abbrev pub below : ℕ → List ℕ
below zero = []
below (suc n) = n ∷ below n

-- The loops that a store's connections hold.
abbrev pub held : Map Str ConnectionData → List ℕ
held [] = []
held ((_, c) ∷ rest) = elim c.loop [ none ↦ held rest | some r ↦ r ∷ held rest ]

abbrev pub push_all : (Str → Bool) → List NodeInfo → ConnectionStore → ConnectionStore
push_all accepts [] s = s
push_all accepts (info ∷ infos) s = push_all accepts infos (push_connection accepts info s)

-- The loops that `ev_loop_new` gives for the nodes with refused addresses, from the n-th call on,
-- where each node takes one call.
abbrev pub refused_loops : (Str → Bool) → ℕ → List NodeInfo → List ℕ
refused_loops accepts n [] = []
refused_loops accepts n (info ∷ infos) =
    let rest = refused_loops accepts (suc n) infos in
    if accepts info.address then rest else n ∷ rest

-- Every loop is held by one connection, or was destroyed once, or is one of those left over.
abbrev Accounts : List ℕ → ConnectionStore → Type 0
Accounts left s = Perm (left ++ held s.connections ++ s.loops.destroyed) (below s.loops.created)

held-append_last :
    (m : Map Str ConnectionData) (a n : Str) (b : Bool) (r : ℕ)
    → held (m ++ (a, record { loop = some r; owns = b; node = n }) ∷ []) ≡ held m ++ r ∷ []
held-append_last [] a n b r = refl
held-append_last ((_, c) ∷ m) a n b r = ground (arith, held-append_last m a n b r)

-- What a push does: the address is refused, or is new, or has a connection already.
abbrev pub Pushes : (Str → Bool) → NodeInfo → ConnectionStore → ConnectionStore → Type 0
Pushes accepts info s s' =
    ((accepts info.address ≡ false)
      × (s' ≡ record s { loops = record (s.loops) { created = suc s.loops.created } }))
    ⊎ ((accepts info.address ≡ true)
        × (find str_dec info.address s.connections ≡ none)
        × (s' ≡ record {
          connections =
              s.connections
              ++ (
                info.address,
                record { loop = some s.loops.created; owns = true; node = info.name },
              )
                ∷ [];
          loops = record (s.loops) { created = suc s.loops.created };
        }))
    ⊎ ((accepts info.address ≡ true)
        × (find str_dec info.address s.connections ≢ none)
        × (s' ≡ record s {
          loops = record {
            created = suc s.loops.created;
            destroyed = s.loops.created ∷ s.loops.destroyed;
          };
        }))

pub push_connection-Pushes :
    (accepts : Str → Bool) (info : NodeInfo) (s : ConnectionStore)
    → Pushes accepts info s (push_connection accepts info s)
unfolding push_connection
push_connection-Pushes accepts info s =
    by_find (accepts info.address) refl (find str_dec info.address s.connections) refl
  where
    by_find :
        (b : Bool)
        → accepts info.address ≡ b
        → (found : Option ConnectionData) → find str_dec info.address s.connections ≡ found
        → Pushes accepts info s (push_connection accepts info s)
    by_find false refused found e = inl (refused, rw (refused, push_connection) refl)
    by_find true accepted none e =
        inr (inl (accepted, e, rw (accepted, push_connection) (rw e refl)))
    by_find true accepted (some c) e =
        inr (inr (accepted, (λ q. cc), rw (accepted, push_connection) (rw e refl)))

held_last-perm :
    (c : ℕ) (left xs ds : List ℕ) → Perm (left ++ (xs ++ c ∷ []) ++ ds) (c ∷ (left ++ xs ++ ds))
held_last-perm c left xs ds =
    subst (λ l. Perm l (c ∷ (left ++ xs ++ ds))) (simp append_assoc)
      (subst (λ l. Perm ((left ++ xs) ++ c ∷ ds) (c ∷ l)) (simp append_assoc)
        (perm_middle {a = c} (left ++ xs) ds))

destroyed-perm :
    (c : ℕ) (left xs ds : List ℕ) → Perm (left ++ xs ++ c ∷ ds) (c ∷ (left ++ xs ++ ds))
destroyed-perm c left xs ds =
    subst (λ l. Perm l (c ∷ (left ++ xs ++ ds))) (simp append_assoc)
      (subst (λ l. Perm ((left ++ xs) ++ c ∷ ds) (c ∷ l)) (simp append_assoc)
        (perm_middle {a = c} (left ++ xs) ds))

abbrev left_over : (Str → Bool) → NodeInfo → ConnectionStore → List ℕ → List ℕ
left_over accepts info s left = if accepts info.address then left else s.loops.created ∷ left

push_connection-Accounts :
    (accepts : Str → Bool) (info : NodeInfo) (left : List ℕ) (s s' : ConnectionStore)
    → Accounts left s
    → Pushes accepts info s s'
    → Accounts (left_over accepts info s left) s'
push_connection-Accounts accepts info left s s' h (inl (refused, e)) =
    rw refused (rw e (Perm.cons s.loops.created h))
push_connection-Accounts accepts info left s s' h (inr (inl (accepted, _, e))) = rw accepted (
    rw e (
      rw (held-append_last s.connections info.address info.name true s.loops.created) (
        Perm.trans (held_last-perm s.loops.created left (held s.connections) s.loops.destroyed)
          (Perm.cons s.loops.created h))))
push_connection-Accounts accepts info left s s' h (inr (inr (accepted, _, e))) = rw accepted (
    rw e (
      Perm.trans (destroyed-perm s.loops.created left (held s.connections) s.loops.destroyed)
        (Perm.cons s.loops.created h)))

push_connection-created :
    (accepts : Str → Bool) (info : NodeInfo) (s : ConnectionStore)
    → (push_connection accepts info s).loops.created ≡ suc s.loops.created
push_connection-created accepts info s = ground (arith, push_connection-Pushes accepts info s)

-- The loop of a refused address, beside those of the nodes after it.
one_left :
    (n : ℕ) (accepted : Bool) (later left xs ds all : List ℕ)
    → Perm ((later ++ (if accepted then left else n ∷ left)) ++ xs ++ ds) all
    → Perm (((if accepted then later else n ∷ later) ++ left) ++ xs ++ ds) all
one_left n true later left xs ds all h = h
one_left n false later left xs ds all h =
    Perm.trans
      (Perm.append_right ds (Perm.append_right xs (Perm.symm (perm_middle {a = n} later left)))) h

push_all-Accounts :
    (accepts : Str → Bool) (infos : List NodeInfo) (left : List ℕ) (s : ConnectionStore)
    → Accounts left s
    → Accounts (refused_loops accepts s.loops.created infos ++ left) (push_all accepts infos s)
push_all-Accounts accepts [] left s h = h
push_all-Accounts accepts (info ∷ infos) left s h =
    let s1 : ConnectionStore = push_connection accepts info s in
    let t : ConnectionStore = push_all accepts infos s1 in
    one_left s.loops.created (accepts info.address)
      (refused_loops accepts (suc s.loops.created) infos) left (held t.connections)
      t.loops.destroyed (below t.loops.created)
      (subst
        (λ n.
          Accounts (refused_loops accepts n infos ++ left_over accepts info s left)
            (push_all accepts infos s1))
        (push_connection-created accepts info s)
        (push_all-Accounts accepts infos (left_over accepts info s left) s1 (
          push_connection-Accounts accepts info left s s1 h
            (push_connection-Pushes accepts info s))))

abbrev Destroys : Map Str ConnectionData → EventLoops → Type 0
Destroys m l =
    Perm (destroy_connections m l).destroyed (held m ++ l.destroyed)
    × ((destroy_connections m l).created ≡ l.created)

destroy_one :
    (a : Str) (c : ConnectionData) (loop : Option ℕ) (m : Map Str ConnectionData) (l : EventLoops)
    → c.loop ≡ loop
    → ((l' : EventLoops) → Destroys m l')
    → Destroys ((a, c) ∷ m) l
unfolding destroy_connections destroy_connection_data
destroy_one a c none m l e rest = rw (e, destroy_connections) (rest l)
destroy_one a c (some r) m l e rest =
    let (same, made) = rest (record l { destroyed = r ∷ l.destroyed }) in
    rw (e, destroy_connections) (Perm.trans same (perm_middle (held m) l.destroyed), made)

destroy_connections-held : (m : Map Str ConnectionData) (l : EventLoops) → Destroys m l
unfolding destroy_connections
destroy_connections-held [] l = (Perm.refl l.destroyed, refl)
destroy_connections-held ((a, c) ∷ m) l =
    destroy_one a c c.loop m l refl (λ l'. destroy_connections-held m l')

push_all-created :
    (accepts : Str → Bool) (infos : List NodeInfo) (s : ConnectionStore)
    → (push_all accepts infos s).loops.created ≡ length infos + s.loops.created
push_all-created accepts [] s = omega arith
push_all-created accepts (info ∷ infos) s =
    push_all-created accepts infos (push_connection accepts info s)
    ∙ omega (arith, push_connection-created accepts info s)

-- Of a store that took any list of nodes, one `ev_loop_new` for each, and ended: the loops that were
-- destroyed, together with the loops that were made for the nodes whose addresses the AMQP library
-- refuses, are exactly the loops that were made, each once. So every loop is destroyed exactly once,
-- but those of refused addresses, which are never destroyed.
pub connection_loops_lem :
    (accepts : Str → Bool) (infos : List NodeInfo)
    → Perm
        (refused_loops accepts 0 infos
          ++ (destroy_connections
              (push_all accepts infos empty_connection_store).connections
              (push_all accepts infos empty_connection_store).loops).destroyed)
        (below (push_all accepts infos empty_connection_store).loops.created)
      × (length infos ≡ (push_all accepts infos empty_connection_store).loops.created)
connection_loops_lem accepts infos =
    let s : ConnectionStore = push_all accepts infos empty_connection_store in
    let left : List ℕ = refused_loops accepts 0 infos in
    let accounts : Accounts left s =
      subst (λ l. Accounts l s) (append-nil left)
        (push_all-Accounts accepts infos [] empty_connection_store (Perm.refl [])) in
    let (closed, _) = destroy_connections-held s.connections s.loops in
    (
      Perm.trans (Perm.append_left left closed)
          (subst (λ l. Perm l (below s.loops.created)) (simp append_assoc) accounts),
      omega (arith, push_all-created accepts infos empty_connection_store),
    )
