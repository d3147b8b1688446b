-- ===== src/App/Launch/Connects.antt =====
-- The loop of `main` over the configured nodes: it connects to all of them, or throws.
use blockchain_messaging_sys.Prelude.{
  ◌≡◌, ◌≢◌, ◌↔◌, ◌⊎◌, inl, inr, refl, sym, ap, ◌∙◌, Bool, true, false, Bool-cases, List, [], ◌∷◌,
  ◌++◌, Option, none, some, Str, str_dec, Map, find, find-append_last, find-modify, emplace, All,
  Any, if_pos, if_neg, ok, fault, Fault, Result, subst,
}
use blockchain_messaging_sys.Itf.{NodeInfo}
use blockchain_messaging_sys.Io.Channels.{Channel, ChannelStore, push_remote, consensus_channel}
use blockchain_messaging_sys.Io.Connections.{
  ConnectionData, ConnectionStore, push_connection, get_connection,
}
use blockchain_messaging_sys.Io.Connections.Loops.{Pushes, push_connection-Pushes}
use blockchain_messaging_sys.App.Startup.{connect_remote}

-- The key has a value.
abbrev pub IsThere {ℓ} : {V : Type ℓ} → Option V → Type 0
IsThere none = ⊥
IsThere (some v) = Unit

abbrev pub HasConnection : Str → ConnectionStore → Type 0
HasConnection a s = IsThere (find str_dec a s.connections)

abbrev pub IsAddressIn : Str → List NodeInfo → Type 0
IsAddressIn a nodes = Any (λ n. a ≡ n.address) nodes

abbrev pub AreAccepted : (Str → Bool) → List NodeInfo → Type 0
AreAccepted accepts nodes = All (λ n. accepts n.address ≡ true) nodes

pub IsThere-append :
    (a b : Str) (c : ConnectionData) (m : Map Str ConnectionData)
    → IsThere (find str_dec a (m ++ (b, c) ∷ [])) ↔ (IsThere (find str_dec a m) ⊎ (a ≡ b))
IsThere-append a b c m = by_find (find str_dec a m) (str_dec b a) refl
  where
    by_find :
        (found : Option ConnectionData) (d : Dec (b ≡ a))
        → find str_dec a m ≡ found
        → IsThere (find str_dec a (m ++ (b, c) ∷ [])) ↔ (IsThere (find str_dec a m) ⊎ (a ≡ b))
    by_find (some v) d e = rw find-append_last (rw e ((λ h. inl tt), (λ h. tt)))
    by_find none (yes p) e =
        rw find-append_last (rw e (rw (if_pos (str_dec b a) p) ((λ h. inr (sym p)), (λ h. tt))))
    by_find none (no p) e = rw find-append_last (
        rw e (
          rw (if_neg (str_dec b a) p)
            ((λ h. absurd h), (λ h. elim h [ inl x ↦ x | inr q ↦ p (sym q) ]))))

pub IsThere-of_ne : {V : Type 0} (o : Option V) → o ≢ none → IsThere o
IsThere-of_ne none h = h refl
IsThere-of_ne (some v) h = tt

pub IsThere-some : {V : Type 0} (o : Option V) → IsThere o → (v : V) × (o ≡ some v)
IsThere-some none h = absurd h
IsThere-some (some v) h = (v, refl)

-- A push of an accepted address.
pub push-HasConnection :
    (accepts : Str → Bool) (info : NodeInfo) (s s' : ConnectionStore)
    → accepts info.address ≡ true
    → Pushes accepts info s s'
    → (a : Str) → HasConnection a s' ↔ (HasConnection a s ⊎ (a ≡ info.address))
push-HasConnection accepts info s s' h (inl (refused, e)) a = cc
push-HasConnection accepts info s s' h (inr (inl (_, absent, e))) a =
    rw e (IsThere-append a info.address _ s.connections)
push-HasConnection accepts info s s' h (inr (inr (_, present, e))) a = rw e (
  (λ x. inl x),
  λ x. elim x [
    | inl y ↦ y
    | inr q ↦
        subst (λ b. HasConnection b s) (sym q)
          (IsThere-of_ne (find str_dec info.address s.connections) present)
  ],
)

-- A push of a refused address.
pub push-refused :
    (accepts : Str → Bool) (info : NodeInfo) (s s' : ConnectionStore)
    → accepts info.address ≡ false
    → Pushes accepts info s s'
    → s'.connections ≡ s.connections
push-refused accepts info s s' h (inl (refused, e)) = ap (λ (t : ConnectionStore). t.connections) e
push-refused accepts info s s' h (inr (inl (accepted, _, e))) = cc
push-refused accepts info s s' h (inr (inr (accepted, _, e))) = cc

push_remote-IsThere :
    (a b : Str) (c : Channel) (ch : ChannelStore)
    → IsThere (find str_dec a (push_remote b c ch).remote_channels)
      ↔ (IsThere (find str_dec a ch.remote_channels) ⊎ (a ≡ b))
unfolding push_remote emplace
push_remote-IsThere a b c ch = elim (str_dec b a) [
  | yes p ↦ rw find-modify (rw (if_pos (str_dec b a) p) ((λ h. inr (sym p)), (λ h. tt)))
  | no p ↦ rw find-modify (
      rw (if_neg (str_dec b a) p)
        ((λ h. inl h), (λ h. elim h [ inl x ↦ x | inr q ↦ absurd (p (sym q)) ])))
]

push_remote-local :
    (b : Str) (c : Channel) (ch : ChannelStore)
    → (push_remote b c ch).local_channels ≡ ch.local_channels
unfolding push_remote
push_remote-local b c ch = refl

pub clash : {b : Bool} → b ≡ true → b ≡ false → ⊥
clash p q = cc

-- The connections are those to accepted addresses.
abbrev pub OnlyAccepted : (Str → Bool) → ConnectionStore → Type 0
OnlyAccepted accepts s = (a : Str) → HasConnection a s → accepts a ≡ true

-- What the loop adds for the nodes.
abbrev pub Connects :
    List NodeInfo → ConnectionStore → ChannelStore → ConnectionStore → ChannelStore → Type 0
Connects nodes s ch s' ch' =
    ((a : Str) → HasConnection a s' ↔ (HasConnection a s ⊎ IsAddressIn a nodes))
    × ((a : Str)
        → IsThere (find str_dec a ch'.remote_channels)
          ↔ (IsThere (find str_dec a ch.remote_channels) ⊎ IsAddressIn a nodes))
    × (ch'.local_channels ≡ ch.local_channels)

abbrev pub ConnectsAll :
    (Str → Bool)
    → List NodeInfo
    → ConnectionStore
    → ChannelStore
    → Result (ConnectionStore × ChannelStore)
    → Type 0
ConnectsAll accepts nodes s ch result =
    (AreAccepted accepts nodes
      × ((s' : ConnectionStore) × (ch' : ChannelStore) × (result ≡ ok (s', ch'))
          × Connects nodes s ch s' ch'))
    ⊎ ((¬ AreAccepted accepts nodes) × (result ≡ fault Fault.out_of_range))

regroup : {P Q R S T : Type 0} → P ↔ (Q ⊎ R) → Q ↔ (S ⊎ T) → P ↔ (S ⊎ (T ⊎ R))
regroup (pf, pb) (qf, qb) = (
  λ p. elim (pf p) [
    | inl q ↦ elim (qf q) [ inl x ↦ inl x | inr t ↦ inr (inl t) ]
    | inr r ↦ inr (inr r)
  ],
  λ h. elim h [
    | inl x ↦ pb (inl (qb (inl x)))
    | inr (inl t) ↦ pb (inl (qb (inr t)))
    | inr (inr r) ↦ pb (inr r)
  ],
)

own_side : {P : Type 0} → P ↔ (P ⊎ ⊥)
own_side = ((λ p. inl p), (λ h. elim h [ inl p ↦ p | inr f ↦ absurd f ]))

-- A node whose address is accepted, and the nodes after it.
after_accepted :
    (accepts : Str → Bool) (node : NodeInfo) (nodes : List NodeInfo) (s s1 : ConnectionStore)
    (ch ch1 : ChannelStore) (result : Result (ConnectionStore × ChannelStore))
    → accepts node.address ≡ true
    → ((a : Str) → HasConnection a s1 ↔ (HasConnection a s ⊎ (a ≡ node.address)))
    → ((a : Str)
        → IsThere (find str_dec a ch1.remote_channels)
          ↔ (IsThere (find str_dec a ch.remote_channels) ⊎ (a ≡ node.address)))
    → ch1.local_channels ≡ ch.local_channels
    → ConnectsAll accepts nodes s1 ch1 result
    → ConnectsAll accepts (node ∷ nodes) s ch result
after_accepted accepts node nodes s s1 ch ch1 result h one channel same
      (inl (all, (s', ch', e, (there, channels, same')))) =
    inl (
      (h, all),
      (
        s',
        ch',
        e,
        ((λ a. regroup (there a) (one a)), (λ a. regroup (channels a) (channel a)), same' ∙ same),
      ),
    )
after_accepted accepts node nodes s s1 ch ch1 result h one channel same (inr (not_all, e)) =
    inr ((λ all. not_all all.1), e)

get-find :
    (a : Str) (s : ConnectionStore) (c : ConnectionData)
    → find str_dec a s.connections ≡ some c
    → get_connection a s ≡ ok c
unfolding get_connection
get-find a s c e = rw (e, get_connection) refl

pub found :
    (a : Str) (s : ConnectionStore)
    → HasConnection a s
    → (c : ConnectionData) × (get_connection a s ≡ ok c)
found a s h = let (c, e) = IsThere-some (find str_dec a s.connections) h in (c, get-find a s c e)

pub not_found :
    (a : Str) (s : ConnectionStore)
    → (¬ HasConnection a s)
    → get_connection a s ≡ fault Fault.out_of_range
unfolding get_connection
not_found a s h = by_find (find str_dec a s.connections) refl
  where
    by_find :
        (o : Option ConnectionData)
        → find str_dec a s.connections ≡ o
        → get_connection a s ≡ fault Fault.out_of_range
    by_find none e = rw (e, get_connection) refl
    by_find (some c) e = absurd (h (subst IsThere (sym e) tt))

OnlyAccepted-push :
    (accepts : Str → Bool) (info : NodeInfo) (s : ConnectionStore)
    → accepts info.address ≡ true
    → OnlyAccepted accepts s
    → OnlyAccepted accepts (push_connection accepts info s)
OnlyAccepted-push accepts info s h only a there =
    elim ((push-HasConnection accepts info s _ h (push_connection-Pushes accepts info s) a).0
      there) [ inl before ↦ only a before | inr q ↦ ap accepts q ∙ h ]

pub connect_remote-ConnectsAll :
    (accepts : Str → Bool) (nodes : List NodeInfo) (s : ConnectionStore) (ch : ChannelStore)
    → OnlyAccepted accepts s
    → ConnectsAll accepts nodes s ch (connect_remote accepts nodes s ch)
unfolding connect_remote
connect_remote-ConnectsAll accepts [] s ch only =
    inl (tt, (s, ch, refl, ((λ a. own_side), (λ a. own_side), refl)))
connect_remote-ConnectsAll accepts (node ∷ nodes) s ch only =
    let s1 : ConnectionStore = push_connection accepts node s in
    elim (Bool-cases (accepts node.address)) [
      | inl accepted ↦
          let one : (a : Str) → HasConnection a s1 ↔ (HasConnection a s ⊎ (a ≡ node.address)) =
            push-HasConnection accepts node s s1 accepted (push_connection-Pushes accepts node s) in
          let (c, e) = found node.address s1 ((one node.address).1 (inr refl)) in
          let ch1 : ChannelStore = push_remote node.address (consensus_channel c.node) ch in
          rw e (
            after_accepted accepts node nodes s s1 ch ch1 _ accepted one
              (λ a. push_remote-IsThere a node.address (consensus_channel c.node) ch)
              (push_remote-local node.address (consensus_channel c.node) ch)
              (connect_remote-ConnectsAll accepts nodes s1 ch1
                (OnlyAccepted-push accepts node s accepted only)))
      | inr refused ↦
          let same : s1.connections ≡ s.connections =
            push-refused accepts node s s1 refused (push_connection-Pushes accepts node s) in
          let absent : ¬ HasConnection node.address s1 = λ h.
            clash (only node.address (subst (λ m. IsThere (find str_dec node.address m)) same h))
              refused in
          rw (not_found node.address s1 absent) (inr ((λ all. clash all.0 refused), refl))
    ]
