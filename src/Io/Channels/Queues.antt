-- ===== src/Io/Channels/Queues.antt =====
-- The queues of the channels.
use mathlib.Core.Path.{ap₂}
use mathlib.Core.List.{append_assoc, append-nil}
use blockchain_messaging_sys.Prelude.{
  ℕ, ◌+◌, ◌≡◌, refl, sym, ap, ◌∙◌, List, [], ◌∷◌, ◌++◌, Str, codes, arith, length, length-append,
}
use blockchain_messaging_sys.Io.Channels.{
  Channel, ChannelType, Publication, type_number, queue_name, publish_to,
}

abbrev head_or : ℕ → Str → ℕ
head_or d [] = d
head_or d (x ∷ xs) = x

abbrev tail_of : Str → Str
tail_of [] = []
tail_of (x ∷ xs) = xs

append_two : (xs ys : Str) (a b c : ℕ) → xs ++ a ∷ b ∷ [] ≡ ys ++ a ∷ c ∷ [] → (xs ≡ ys) × (b ≡ c)
append_two [] [] a b c e = (refl, ap (λ (s : Str). head_or 0 (tail_of s)) e)
append_two [] (y ∷ ys) a b c e = absurd (omega (arith, ap length e, length-append ys (a ∷ c ∷ [])))
append_two (x ∷ xs) [] a b c e = absurd (omega (arith, ap length e, length-append xs (a ∷ b ∷ [])))
append_two (x ∷ xs) (y ∷ ys) a b c e =
    let (same, last) = append_two xs ys a b c (ap tail_of e) in
    (ap₂ ◌∷◌ (ap (head_or 0) e) same, last)

type_number-injective : (t u : ChannelType) → type_number t ≡ type_number u → t ≡ u
unfolding type_number
type_number-injective t u e = ground arith

-- Channels of different nodes or of different types have different queues, even where a node's
-- name ends like a queue's.
pub queue_name-injective :
    (name name' : Str) (t u : ChannelType)
    → queue_name name t ≡ queue_name name' u
    → (name ≡ name') × (t ≡ u)
unfolding queue_name
queue_name-injective name name' t u e =
    let (same, digit) =
      append_two name name' b'_' (b'0' + type_number t) (b'0' + type_number u)
        (sym (append_assoc name (codes "_") _) ∙ e ∙ append_assoc name' (codes "_") _) in
    (same, type_number-injective t u (omega arith))

-- The publications that a loop over channels adds.
pub sent_to : List Channel → Str → List Publication
sent_to [] message = []
sent_to (c ∷ cs) message = (c.queue, message) ∷ sent_to cs message

pub publish_to-sent_to :
    (cs : List Channel) (message : Str) (sent : List Publication)
    → publish_to cs message sent ≡ sent ++ sent_to cs message
unfolding publish_to sent_to
publish_to-sent_to [] message sent = sym (append-nil sent)
publish_to-sent_to (c ∷ cs) message sent =
    publish_to-sent_to cs message (sent ++ (c.queue, message) ∷ [])
    ∙ append_assoc sent ((c.queue, message) ∷ []) (sent_to cs message)
