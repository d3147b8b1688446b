-- ===== src/Client/Listener/Routed.antt =====
-- Of what the node publishes for a block, a client gets what goes to its own channel.
use mathlib.Core.List.{append_cancel_right, append-nil}
use blockchain_messaging_sys.Prelude.{
  ◌≡◌, ◌≢◌, inl, inr, refl, sym, ap, subst, ◌∙◌, List, [], ◌∷◌, ◌++◌, Str, str_dec, codes, ite,
  if_pos, if_neg, All, Any,
}
use blockchain_messaging_sys.Itf.{Message}
use blockchain_messaging_sys.Serialization.{Archive, message_class, serialize}
use blockchain_messaging_sys.Io.Channels.{Publication}
use blockchain_messaging_sys.Consumer.{client_channel}
use blockchain_messaging_sys.Consumer.Laws.{deliveries_to, deliveries, AreDistinct}
use blockchain_messaging_sys.Client.Listener.{Event}

-- The publications to one queue, as they arrive at the client that consumes it.
abbrev pub arrives_at : Str → List Publication → List Event
arrives_at queue [] = []
arrives_at queue ((q, text) ∷ more) =
    ite (str_dec q queue) (Event.arrives text ∷ arrives_at queue more) (arrives_at queue more)

client_channel-injective : (a b : Str) → client_channel a ≡ client_channel b → a ≡ b
unfolding client_channel
client_channel-injective a b e = append_cancel_right a b (codes "_ClientChannel") e

module _ (archive : Archive) where
  -- The messages of a block as they arrive.
  abbrev pub arriving : List Message → List Event
  arriving [] = []
  arriving (m ∷ ms) = Event.arrives (serialize archive message_class m) ∷ arriving ms

  arrives_at-own :
      (name : Str) (ms : List Message) (rest : List Publication)
      → arrives_at (client_channel name) (deliveries_to archive name ms ++ rest)
        ≡ arriving ms ++ arrives_at (client_channel name) rest
  arrives_at-own name [] rest = refl
  arrives_at-own name (m ∷ ms) rest =
      if_pos (str_dec (client_channel name) (client_channel name)) refl _ _
      ∙ ap (◌∷◌ (Event.arrives (serialize archive message_class m))) (arrives_at-own name ms rest)

  arrives_at-other :
      (name other : Str) (ms : List Message) (rest : List Publication)
      → other ≢ name
      → arrives_at (client_channel name) (deliveries_to archive other ms ++ rest)
        ≡ arrives_at (client_channel name) rest
  arrives_at-other name other [] rest d = refl
  arrives_at-other name other (m ∷ ms) rest d =
      if_neg (str_dec (client_channel other) (client_channel name))
        (λ e. d (client_channel-injective other name e)) _ _
      ∙ arrives_at-other name other ms rest d

  arrives_at-absent :
      (name : Str) (names : List Str) (ms : List Message)
      → All (λ y. y ≢ name) names
      → arrives_at (client_channel name) (deliveries archive names ms) ≡ []
  arrives_at-absent name [] ms h = refl
  arrives_at-absent name (other ∷ names) ms (d, h) =
      arrives_at-other name other ms (deliveries archive names ms) d
      ∙ arrives_at-absent name names ms h

  -- A registered client gets each message of the block once, in the block's order.
  pub arrives_at-deliveries :
      (name : Str) (names : List Str) (ms : List Message)
      → AreDistinct names
      → Any (λ y. y ≡ name) names
      → arrives_at (client_channel name) (deliveries archive names ms) ≡ arriving ms
  arrives_at-deliveries name [] ms distinct registered = absurd registered
  arrives_at-deliveries name (other ∷ names) ms (apart, distinct) (inl e) =
      subst
        (λ o.
          arrives_at (client_channel name)
            (deliveries_to archive o ms ++ deliveries archive names ms)
          ≡ arriving ms ++ arrives_at (client_channel name) (deliveries archive names ms))
        (sym e) (arrives_at-own name ms (deliveries archive names ms))
      ∙ ap (λ es. arriving ms ++ es)
          (arrives_at-absent name names ms (subst (λ o. All (λ y. y ≢ o) names) e apart))
      ∙ append-nil (arriving ms)
  arrives_at-deliveries name (other ∷ names) ms (apart, distinct) (inr more) =
      arrives_at-other name other ms (deliveries archive names ms)
        (λ e. member_apart names (subst (λ o. All (λ y. y ≢ o) names) e apart) more)
      ∙ arrives_at-deliveries name names ms distinct more
    where
      member_apart : (ns : List Str) → All (λ y. y ≢ name) ns → Any (λ y. y ≡ name) ns → ⊥
      member_apart [] h m = m
      member_apart (n ∷ ns) (d, h) (inl e) = d e
      member_apart (n ∷ ns) (d, h) (inr m) = member_apart ns h m
