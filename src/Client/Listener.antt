-- ===== src/Client/Listener.antt =====
-- Client::listen (client/src/Client.cpp): the AMQP thread pushes what arrives, and the interval
-- timer runs `handleBufferedData`. The `std::scoped_lock(mutex)` of that function declares a new
-- variable and locks nothing, so each access to the buffer is a step of its own. A text that is no
-- message throws in the timer's thread, which ends the program.
pub mod Laws
pub mod Routed
pub mod Printed
use blockchain_messaging_sys.Prelude.{
  ℕ, Bool, true, false, List, [], ◌∷◌, ◌++◌, Str, codes, Result, ok, fault, ◌>>=◌, if◌then◌else◌,
}
use blockchain_messaging_sys.Itf.{Message}
use blockchain_messaging_sys.Serialization.{Archive, message_class, deserialize}
use blockchain_messaging_sys.Consumer.{at}
use blockchain_messaging_sys.Text.{split_by_separator}
use blockchain_messaging_sys.Client.Inbox.{
  Buffer, empty_buffer, push_back, is_empty, get_data, clear_buffer,
}

-- Where `handleBufferedData` stands: not running, after its test, with its copy of the data, and
-- before `clearBuffer`.
pub data Pc : Type 0 where
  idle tested : Pc
  copied : List Str → Pc
  printed : Pc

-- An author and a text, as they are printed; the time before them is the clock's.
abbrev pub Line : Type 0
Line = Str × Str

pub record Listener : Type 0 where
  pub buffer : Buffer Str
  pub pc : Pc
  pub output : List Line

abbrev pub new_listener : Listener
new_listener = record { buffer = empty_buffer; pc = Pc.idle; output = [] }

pub data Event : Type 0 where
  arrives : Str → Event
  works : Event

module _ (archive : Archive) (tokenize : Str → Str → List Str) where
  -- One turn of the loop over the copy.
  unfoldable pub show : Str → Result Line
  unfolding at split_by_separator deserialize
  show msg = do
    serialized_message ← at 0 (split_by_separator tokenize msg (codes "@"))
    message ← deserialize archive message_class serialized_message
    ok (message.author, message.body)

  unfoldable pub show_all : List Str → List Line → Result (List Line)
  unfolding show
  show_all [] output = ok output
  show_all (msg ∷ msgs) output = show msg >>= λ line. show_all msgs (output ++ line ∷ [])

  -- The next step of `handleBufferedData`.
  work_at : Pc → Listener → Result Listener
  unfolding is_empty get_data clear_buffer show_all
  work_at Pc.idle l = ok (record l { pc = if is_empty l.buffer then Pc.idle else Pc.tested })
  work_at Pc.tested l = ok (record l { pc = Pc.copied (get_data l.buffer) })
  work_at (Pc.copied msgs) l =
      show_all msgs l.output >>= λ output. ok (record l { pc = Pc.printed; output = output })
  work_at Pc.printed l = ok (record l { pc = Pc.idle; buffer = clear_buffer l.buffer })

  unfoldable pub work : Listener → Result Listener
  unfolding work_at
  work l = work_at l.pc l

  unfoldable pub step : Event → Listener → Result Listener
  unfolding push_back work
  step (Event.arrives text) l = ok (record l { buffer = push_back text l.buffer })
  step Event.works l = work l

  unfoldable pub run : List Event → Listener → Result Listener
  unfolding step
  run [] l = ok l
  run (e ∷ es) l = step e l >>= run es
