-- ===== src/Consumer/Laws.antt =====
-- What reaches the clients, and to whom blocks are sent.
use mathlib.Core.List.{append_assoc, append-nil}
use blockchain_messaging_sys.Prelude.{
  ◌≡◌, ◌≢◌, ◌↔◌, ◌⊎◌, inl, inr, refl, sym, ap, ◌∙◌, List, [], ◌∷◌, ◌++◌, map, Str, str_dec, All,
  Any, if_pos, if_neg,
}
use blockchain_messaging_sys.Itf.{Message, Block}
use blockchain_messaging_sys.Itf.Channels.{new_client_channel, node_control_channel}
use blockchain_messaging_sys.Serialization.{Archive, message_class, serialize}
use blockchain_messaging_sys.Io.Channels.{Publication}
use blockchain_messaging_sys.Consumer.{
  Consumer, client_channel, control_channel, send_data_to_clients, publish_loop, publish_block,
  add_client_name, on_queue_declared,
}

module _ (archive : Archive) where
  -- What one client gets: its channel, and each message in the block's order.
  abbrev pub deliveries_to : Str → List Message → List Publication
  deliveries_to name messages =
      map (λ m. (client_channel name, serialize archive message_class m)) messages

  abbrev pub deliveries : List Str → List Message → List Publication
  deliveries [] messages = []
  deliveries (name ∷ names) messages = deliveries_to name messages ++ deliveries names messages

  send_data_to_clients_lem :
      (name : Str) (messages : List Message) (sent : List Publication)
      → send_data_to_clients archive (client_channel name) messages sent
        ≡ sent ++ deliveries_to name messages
  unfolding send_data_to_clients
  send_data_to_clients_lem name [] sent = sym (append-nil sent)
  send_data_to_clients_lem name (m ∷ ms) sent =
      send_data_to_clients_lem name ms _ ∙ append_assoc sent (_ ∷ []) (deliveries_to name ms)

  publish_loop_lem :
      (names : List Str) (messages : List Message) (sent : List Publication)
      → publish_loop archive names messages sent ≡ sent ++ deliveries names messages
  unfolding publish_loop
  publish_loop_lem [] messages sent = sym (append-nil sent)
  publish_loop_lem (name ∷ names) messages sent =
      publish_loop_lem names messages _
      ∙ ap (λ l. l ++ deliveries names messages) (send_data_to_clients_lem name messages sent)
      ∙ append_assoc sent (deliveries_to name messages) (deliveries names messages)

  -- Publishing a block appends to what was sent, client by client in the order of registration and
  -- on each client's own channel, every message of the block once and in the block's order.
  pub publish_block_lem :
      (b : Block) (c : Consumer) (sent : List Publication)
      → publish_block archive b c sent ≡ sent ++ deliveries c.client_names b.messages
  unfolding publish_block
  publish_block_lem b c sent = publish_loop_lem c.client_names b.messages sent

abbrev pub AreDistinct : List Str → Type 0
AreDistinct [] = Unit
AreDistinct (x ∷ xs) = All (λ y. y ≢ x) xs × AreDistinct xs

All-add_client_name :
    (x author : Str) (names : List Str)
    → author ≢ x
    → All (λ y. y ≢ x) names
    → All (λ y. y ≢ x) (add_client_name author names)
unfolding add_client_name
All-add_client_name x author [] d h = (d, tt)
All-add_client_name x author (name ∷ names) d h = elim (str_dec name author) [
  | yes e ↦ rw (if_pos _ e) h
  | no e ↦ rw (if_neg _ e) (h.0, All-add_client_name x author names d h.1)
]

AreDistinct-add :
    (author : Str) (names : List Str)
    → AreDistinct names
    → AreDistinct (add_client_name author names)
unfolding add_client_name
AreDistinct-add author [] h = (tt, tt)
AreDistinct-add author (name ∷ names) h = elim (str_dec name author) [
  | yes e ↦ rw (if_pos _ e) h
  | no e ↦ rw (if_neg _ e) (
    All-add_client_name name author names (λ e'. e (sym e')) h.0,
    AreDistinct-add author names h.1,
  )
]

Any-add :
    (x author : Str) (names : List Str)
    → Any (λ y. y ≡ x) (add_client_name author names) ↔ (Any (λ y. y ≡ x) names ⊎ (author ≡ x))
unfolding add_client_name
Any-add x author [] = (
  λ h. elim h [ inl e ↦ inr e | inr f ↦ absurd f ],
  λ h. elim h [ inl f ↦ absurd f | inr e ↦ inl e ],
)
Any-add x author (name ∷ names) = elim (str_dec name author) [
  | yes e ↦ rw (if_pos _ e) (λ h. inl h, λ h. elim h [ inl a ↦ a | inr q ↦ inl (e ∙ q) ])
  | no e ↦
      let (there, back) = Any-add x author names in
      rw (if_neg _ e) (
        λ h. elim h [
          | inl q ↦ inl (inl q)
          | inr m ↦ elim (there m) [ inl k ↦ inl (inr k) | inr q ↦ inr q ]
        ],
        λ h. elim h [
          | inl (inl q) ↦ inl q
          | inl (inr k) ↦ inr (back (inl k))
          | inr q ↦ inr (back (inr q))
        ],
      )
]

-- A declared queue registers its author once: if the names were distinct they are distinct
-- afterwards, and the registered clients are those that were there and the author.
pub on_queue_declared_lem :
    (author : Str) (c : Consumer)
    → AreDistinct c.client_names
    → AreDistinct (on_queue_declared author c).client_names
      × ((x : Str)
          → Any (λ y. y ≡ x) (on_queue_declared author c).client_names
            ↔ (Any (λ y. y ≡ x) c.client_names ⊎ (author ≡ x)))
unfolding on_queue_declared
on_queue_declared_lem author c h =
    (AreDistinct-add author c.client_names h, λ x. Any-add x author c.client_names)

-- The queues that the node uses are those that common/Channel.hpp names.
pub channel_names :
    (name : Str)
    → (client_channel name ≡ (new_client_channel name).channel_name)
      × (control_channel name ≡ (node_control_channel name).channel_name)
unfolding client_channel control_channel new_client_channel node_control_channel
channel_names name = (refl, refl)
