-- ===== src/Buffer/Fifo.antt =====
-- The buffer as a queue of messages: what goes in comes out, once and in order.
use mathlib.Core.List.{append_assoc, append-nil}
use blockchain_messaging_sys.Prelude.{
  ℕ, ◌/◌, ◌≡◌, ◌≢◌, refl, sym, ap, ◌∙◌, List, [], ◌∷◌, ◌++◌, Option, none, some, All,
}
use blockchain_messaging_sys.Itf.{Message, Block, BlockState, slot_length, block_of, get_slot}
use blockchain_messaging_sys.Buffer.{Buffer, empty_buffer, push, save, pop}

-- The messages of the blocks, then those that no block has yet.
abbrev pub block_messages : List Block → List Message
block_messages [] = []
block_messages (b ∷ bs) = b.messages ++ block_messages bs

abbrev pub pending : Buffer → List Message
pending b = block_messages b.blocks ++ b.messages

-- A buffered block is not empty, is pending, and belongs to the slot of its timestamp.
abbrev pub IsSavedBlock : Block → Type 0
IsSavedBlock b =
    (b.messages ≢ []) × (b.state ≡ BlockState.pending) × (b.slot ≡ b.timestamp / slot_length)

abbrev pub IsValid : Buffer → Type 0
IsValid b = All IsSavedBlock b.blocks

-- What the threads do with a buffer.
pub data Call : Type 0 where
  pushes : Message → Call
  saves : ℕ → Call
  pops : Call

popped : Option Block → List Message
popped none = []
popped (some b) = b.messages

-- A history of calls: the messages pushed, those popped, and the buffer that is left.
pub record Trace : Type 0 where
  pub pushed : List Message
  pub taken : List Message
  pub left : Buffer

pub step : Trace → Call → Trace
unfolding push save pop popped
step t (pushes m) = record { pushed = t.pushed ++ m ∷ []; taken = t.taken; left = push m t.left }
step t (saves now) = record t { left = save now t.left }
step t pops = record t { taken = t.taken ++ popped (pop t.left).1; left = (pop t.left).0 }

pub run : Trace → List Call → Trace
run t [] = t
run t (c ∷ cs) = run (step t c) cs

block_messages-append :
    (bs : List Block) (b : Block) → block_messages (bs ++ b ∷ []) ≡ block_messages bs ++ b.messages
block_messages-append [] b = append-nil b.messages
block_messages-append (c ∷ bs) b =
    ap (◌++◌ c.messages) (block_messages-append bs b)
    ∙ sym (append_assoc c.messages (block_messages bs) b.messages)

pending-save :
    (now : ℕ) (ms : List Message) (bs : List Block)
    → pending (save now (record { messages = ms; blocks = bs })) ≡ block_messages bs ++ ms
unfolding save
pending-save now [] bs = refl
pending-save now (m ∷ ms) bs = append-nil _ ∙ block_messages-append bs (block_of now (m ∷ ms))

pending-pop :
    (bs : List Block) (ms : List Message)
    → popped (pop (record { messages = ms; blocks = bs })).1
        ++ pending (pop (record { messages = ms; blocks = bs })).0
      ≡ block_messages bs ++ ms
unfolding pop popped
pending-pop [] ms = refl
pending-pop (b ∷ bs) ms = sym (append_assoc b.messages (block_messages bs) ms)

All-snoc :
    (P : Block → Type 0) (bs : List Block) (b : Block) → All P bs → P b → All P (bs ++ b ∷ [])
All-snoc P [] b hs h = (h, tt)
All-snoc P (c ∷ bs) b hs h = (hs.0, All-snoc P bs b hs.1 h)

save-IsValid :
    (now : ℕ) (ms : List Message) (bs : List Block)
    → All IsSavedBlock bs
    → IsValid (save now (record { messages = ms; blocks = bs }))
unfolding save block_of get_slot
save-IsValid now [] bs h = h
save-IsValid now (m ∷ ms) bs h =
    All-snoc IsSavedBlock bs (block_of now (m ∷ ms)) h ((λ e. cc), refl, refl)

pop-IsValid :
    (bs : List Block) (ms : List Message)
    → All IsSavedBlock bs
    → IsValid (pop (record { messages = ms; blocks = bs })).0
unfolding pop
pop-IsValid [] ms h = tt
pop-IsValid (b ∷ bs) ms h = h.1

-- What was pushed is what was taken and what is pending, in this order.
abbrev pub IsFifo : Trace → Type 0
IsFifo t = (t.pushed ≡ t.taken ++ pending t.left) × IsValid t.left

step-IsFifo : (t : Trace) (c : Call) → IsFifo t → IsFifo (step t c)
unfolding step push
step-IsFifo t (pushes m) h = (
  ap (λ (l : List Message). l ++ m ∷ []) h.0
      ∙ append_assoc t.taken (pending t.left) (m ∷ [])
      ∙ ap (◌++◌ t.taken) (append_assoc (block_messages t.left.blocks) t.left.messages (m ∷ [])),
  h.1,
)
step-IsFifo t (saves now) h = (
  h.0 ∙ ap (◌++◌ t.taken) (sym (pending-save now t.left.messages t.left.blocks)),
  save-IsValid now t.left.messages t.left.blocks h.1,
)
step-IsFifo t pops h = (
  h.0
      ∙ ap (◌++◌ t.taken) (sym (pending-pop t.left.blocks t.left.messages))
      ∙ sym (append_assoc t.taken _ _),
  pop-IsValid t.left.blocks t.left.messages h.1,
)

run-IsFifo : (t : Trace) (cs : List Call) → IsFifo t → IsFifo (run t cs)
unfolding run
run-IsFifo t [] h = h
run-IsFifo t (c ∷ cs) h = run-IsFifo (step t c) cs (step-IsFifo t c h)

pub start : Trace
start = record { pushed = []; taken = []; left = empty_buffer }

-- After any history of pushes of single messages, saves and pops on a new buffer, the messages of
-- the popped blocks followed by those still in the buffer are the pushed messages, each once and in
-- the order of the pushes; and every block in the buffer is pending, holds a message, and has the
-- slot of its timestamp.
pub run-start-IsFifo : (cs : List Call) → IsFifo (run start cs)
unfolding start
run-start-IsFifo cs = run-IsFifo start cs (refl, tt)
