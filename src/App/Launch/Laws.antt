-- ===== src/App/Launch/Laws.antt =====
-- When `main` gets through its start, and what runs then.
use blockchain_messaging_sys.Prelude.{
  ◌≡◌, ◌≢◌, ◌↔◌, ◌⊎◌, inl, inr, refl, sym, ap, ◌∙◌, Bool, true, false, Bool-cases, List, [], ◌∷◌,
  ◌++◌, map, Str, str_dec, Map, find, find-modify, emplace, Any, arith, if_pos, if_neg, ok, fault,
  Fault, Result, subst,
}
use blockchain_messaging_sys.Itf.{NodeConfiguration}
use blockchain_messaging_sys.Consumer.{Consumer, control_channel, new_consumer}
use blockchain_messaging_sys.Io.Channels.{
  ChannelStore, consume, empty_channel_store, push_local, consensus_channel,
}
use blockchain_messaging_sys.Io.Connections.{
  ConnectionData, ConnectionStore, push_connection, get_connection, empty_connection_store,
}
use blockchain_messaging_sys.Io.Connections.Loops.{push_connection-Pushes}
use blockchain_messaging_sys.App.Main.{main_wheel}
use blockchain_messaging_sys.App.Startup.{connect_remote, connect}
use blockchain_messaging_sys.App.Launch.{Task, Launched, other_loops, launch}
use blockchain_messaging_sys.App.Launch.Connects.{
  IsThere, HasConnection, IsAddressIn, AreAccepted, push-HasConnection, push-refused,
  connect_remote-ConnectsAll, found,
}

Any-other_loops :
    (a own : Str) (m : Map Str ConnectionData)
    → Any (λ b. b ≡ a) (other_loops own m) ↔ (IsThere (find str_dec a m) × (a ≢ own))
unfolding other_loops find
Any-other_loops a own [] = ((λ h. absurd h), (λ h. absurd h.0))
Any-other_loops a own ((j, c) ∷ m) =
    let (there, back) = Any-other_loops a own m in
    elim (str_dec own j) [
      | yes mine ↦ elim (str_dec j a) [
        | yes here ↦
            rw (if_pos (str_dec own j) mine, if_pos (str_dec j a) here)
              ((λ h. (tt, (there h).1)), (λ h. absurd (h.1 (sym (mine ∙ here)))))
        | no other ↦ rw (if_pos (str_dec own j) mine, if_neg (str_dec j a) other) (there, back)
      ]
      | no others ↦ elim (str_dec j a) [
        | yes here ↦
            rw (if_neg (str_dec own j) others, if_pos (str_dec j a) here)
              ((λ h. (tt, λ q. others (sym (here ∙ q)))), (λ h. inl here))
        | no other ↦
            rw (if_neg (str_dec own j) others, if_neg (str_dec j a) other)
              ((λ h. elim h [ inl q ↦ absurd (other q) | inr k ↦ there k ]), (λ h. inr (back h)))
      ]
    ]

Any-threads :
    (a : Str) (xs : List Str)
    → Any
        (λ t. t ≡ Task.event_loop a)
        (map Task.event_loop xs ++ Task.slot_timer ∷ Task.consumer_run ∷ [])
      ↔ Any (λ b. b ≡ a) xs
Any-threads a [] =
    ((λ h. elim h [ inl e ↦ cc | inr (inl e) ↦ cc | inr (inr f) ↦ f ]), (λ h. absurd h))
Any-threads a (x ∷ xs) =
    let (there, back) = Any-threads a xs in
    (
      λ h. elim h [ inl e ↦ inl (ground arith) | inr m ↦ inr (there m) ],
      λ h. elim h [ inl e ↦ inl (ap Task.event_loop e) | inr m ↦ inr (back m) ],
    )

-- What runs after the start: the consumer with the control queue, a connection to each configured address, the node's own included, a
-- channel to each other node, the node's own channel, and a thread with an event loop for exactly
-- the configured addresses that are not the node's own.
abbrev pub Runs : NodeConfiguration → Launched → Type 0
Runs config l =
    (l.consumer.consumed ≡ control_channel config.self.name ∷ [])
    × ((a : Str) → HasConnection a l.connections ↔ IsAddressIn a (config.self ∷ config.nodes))
    × ((a : Str) → IsThere (find str_dec a l.channels.remote_channels) ↔ IsAddressIn a config.nodes)
    × IsThere (find str_dec config.self.address l.channels.local_channels)
    × ((a : Str)
        → Any (λ t. t ≡ Task.event_loop a) l.threads
          ↔ (IsAddressIn a config.nodes × (a ≢ config.self.address)))

abbrev pub Starts : (Str → Bool) → NodeConfiguration → Result Launched → Type 0
Starts accepts config result =
    (AreAccepted accepts (config.self ∷ config.nodes)
      × ((l : Launched) × (result ≡ ok l) × Runs config l))
    ⊎ ((accepts config.self.address ≡ false) × (result ≡ fault Fault.invalid_address))
    ⊎ ((accepts config.self.address ≡ true)
        × (¬ AreAccepted accepts config.nodes)
        × (result ≡ fault Fault.out_of_range))

own_consumer : NodeConfiguration → Consumer
own_consumer config = record {
  client_names = [];
  declarations = [];
  consumed = control_channel config.self.name ∷ [];
}

launched : NodeConfiguration → ConnectionStore → ChannelStore → ConnectionData → Launched
launched config s ch c = record {
  consumer = own_consumer config;
  connections = s;
  channels = ch;
  consumed = consume true (consensus_channel c.node) [];
  timer_wheel = main_wheel;
  threads =
      map Task.event_loop (other_loops config.self.address s.connections)
      ++ Task.slot_timer ∷ Task.consumer_run ∷ [];
  main_thread = Task.event_loop config.self.address;
}

new_consumer-ok :
    (accepts : Str → Bool) (config : NodeConfiguration)
    → accepts config.self.address ≡ true
    → new_consumer accepts config ≡ ok (own_consumer config)
unfolding new_consumer own_consumer
new_consumer-ok accepts config h = rw h refl

launch-ok :
    (accepts : Str → Bool) (config : NodeConfiguration) (s : ConnectionStore) (ch : ChannelStore)
    (c : ConnectionData)
    → accepts config.self.address ≡ true
    → connect accepts config ≡ ok (s, ch)
    → get_connection config.self.address s ≡ ok c
    → launch accepts config ≡ ok (launched config s ch c)
unfolding launch launched
launch-ok accepts config s ch c h e e' =
    rw (new_consumer-ok accepts config h, launch) (rw e (rw e' refl))

launch-fault :
    (accepts : Str → Bool) (config : NodeConfiguration)
    → accepts config.self.address ≡ true
    → connect accepts config ≡ fault Fault.out_of_range
    → launch accepts config ≡ fault Fault.out_of_range
unfolding launch
launch-fault accepts config h e = rw (new_consumer-ok accepts config h, launch) (rw e refl)

launch-refused :
    (accepts : Str → Bool) (config : NodeConfiguration)
    → accepts config.self.address ≡ false
    → launch accepts config ≡ fault Fault.invalid_address
unfolding launch new_consumer
launch-refused accepts config h = rw (h, launch) refl

-- The connection and the channel of the node itself.
abbrev own_connection : (Str → Bool) → NodeConfiguration → ConnectionStore
own_connection accepts config = push_connection accepts config.self empty_connection_store

abbrev own_channel : NodeConfiguration → ConnectionData → ChannelStore
own_channel config c = push_local config.self.address (consensus_channel c.node) empty_channel_store

connect-eq :
    (accepts : Str → Bool) (config : NodeConfiguration) (c : ConnectionData)
    → get_connection config.self.address (own_connection accepts config) ≡ ok c
    → connect accepts config
      ≡ connect_remote accepts config.nodes (own_connection accepts config) (own_channel config c)
unfolding connect
connect-eq accepts config c e = rw (e, connect) refl

connect-fault :
    (accepts : Str → Bool) (config : NodeConfiguration)
    → get_connection config.self.address (own_connection accepts config) ≡ fault Fault.out_of_range
    → connect accepts config ≡ fault Fault.out_of_range
unfolding connect
connect-fault accepts config e = rw (e, connect) refl

own_channel_lem :
    (config : NodeConfiguration) (c : ConnectionData)
    → IsThere (find str_dec config.self.address (own_channel config c).local_channels)
      × ((a : Str) → ¬ IsThere (find str_dec a (own_channel config c).remote_channels))
unfolding push_local emplace find
own_channel_lem config c = (
  rw find-modify (rw (if_pos (str_dec config.self.address config.self.address) refl) tt),
  λ a h. h,
)

own_connection_lem :
    (accepts : Str → Bool) (config : NodeConfiguration)
    → accepts config.self.address ≡ true
    → (a : Str) → HasConnection a (own_connection accepts config) ↔ (a ≡ config.self.address)
unfolding find
own_connection_lem accepts config h a =
    let (there, back) =
      push-HasConnection accepts config.self empty_connection_store _ h
        (push_connection-Pushes accepts config.self empty_connection_store) a in
    (λ p. elim (there p) [ inl f ↦ absurd f | inr q ↦ q ], λ q. back (inr q))

refused_own :
    (accepts : Str → Bool) (config : NodeConfiguration)
    → accepts config.self.address ≡ false
    → ¬ HasConnection config.self.address (own_connection accepts config)
unfolding find
refused_own accepts config h there =
    subst (λ m. IsThere (find str_dec config.self.address m))
      (push-refused accepts config.self empty_connection_store _ h
        (push_connection-Pushes accepts config.self empty_connection_store))
      there

launched-Runs :
    (config : NodeConfiguration) (s : ConnectionStore) (ch : ChannelStore) (c : ConnectionData)
    → ((a : Str) → HasConnection a s ↔ ((a ≡ config.self.address) ⊎ IsAddressIn a config.nodes))
    → ((a : Str) → IsThere (find str_dec a ch.remote_channels) ↔ IsAddressIn a config.nodes)
    → IsThere (find str_dec config.self.address ch.local_channels)
    → Runs config (launched config s ch c)
unfolding launched own_consumer
launched-Runs config s ch c there channels own = (
  refl,
  there,
  channels,
  own,
  λ a.
      let (threads, threads') = Any-threads a (other_loops config.self.address s.connections) in
      let (loops, loops') = Any-other_loops a config.self.address s.connections in
      (
        λ h.
            let (connected, other) = loops (threads h) in
            (elim ((there a).0 connected) [ inl q ↦ absurd (other q) | inr k ↦ k ], other),
        λ h. threads' (loops' ((there a).1 (inr h.0), h.1)),
      ),
)

via : {P Q R S : Type 0} → P ↔ (Q ⊎ R) → Q ↔ S → P ↔ (S ⊎ R)
via (pf, pb) (qf, qb) = (
  λ p. elim (pf p) [ inl q ↦ inl (qf q) | inr r ↦ inr r ],
  λ h. elim h [ inl x ↦ pb (inl (qb x)) | inr r ↦ pb (inr r) ],
)

nowhere_else : {P Q R : Type 0} → P ↔ (Q ⊎ R) → (¬ Q) → P ↔ R
nowhere_else (pf, pb) no_q =
    (λ p. elim (pf p) [ inl q ↦ absurd (no_q q) | inr r ↦ r ], λ r. pb (inr r))

-- `main` gets through its start exactly if the AMQP library accepts the address of every configured
-- node, the node's own included. It then consumes its control queue, and has connections to exactly these addresses, its own
-- channel, remote channels for exactly the other nodes' addresses, and a thread with an event loop
-- for exactly those of them that are not its own. If its own address is refused, Consumer's
-- constructor throws. If only another node's address is, the look-up of its connection throws,
-- although `push` has logged the refusal and gone on.
pub launch_lem :
    (accepts : Str → Bool) (config : NodeConfiguration)
    → Starts accepts config (launch accepts config)
launch_lem accepts config = elim (Bool-cases (accepts config.self.address)) [
  | inl accepted ↦
      let own : Str = config.self.address in
      let s1 : ConnectionStore = own_connection accepts config in
      let one : (a : Str) → HasConnection a s1 ↔ (a ≡ own) =
        own_connection_lem accepts config accepted in
      let (c, e) = found own s1 ((one own).1 refl) in
      elim (connect_remote-ConnectsAll accepts config.nodes s1 (own_channel config c)
        (λ a h. ap accepts ((one a).0 h) ∙ accepted)) [
          | inl (all, (s, ch, e', (there, channels, same))) ↦
              let (c', e'') = found own s ((there own).1 (inl ((one own).1 refl))) in
              inl (
                (accepted, all),
                (
                  launched config s ch c',
                  launch-ok accepts config s ch c' accepted (connect-eq accepts config c e ∙ e')
                      e'',
                  launched-Runs config s ch c' (λ a. via (there a) (one a))
                      (λ a. nowhere_else (channels a) ((own_channel_lem config c).1 a))
                      (subst (λ m. IsThere (find str_dec own m)) (sym same)
                        (own_channel_lem config c).0),
                ),
              )
          | inr (not_all, e') ↦ inr (
              inr (
                accepted,
                not_all,
                launch-fault accepts config accepted (connect-eq accepts config c e ∙ e'),
              ))
        ]
  | inr refused ↦ inr (inl (refused, launch-refused accepts config refused))
]
