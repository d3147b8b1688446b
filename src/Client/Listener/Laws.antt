-- ===== src/Client/Listener/Laws.antt =====
-- What the client prints of what arrives.
use mathlib.Core.List.{append_assoc, append-nil}
use blockchain_messaging_sys.Prelude.{
  Bool, true, false, List, [], ◌∷◌, ◌++◌, Str, Result, ok, fault, ◌≡◌, refl, sym, ap, subst, ◌∙◌,
  All, if◌then◌else◌,
}
use blockchain_messaging_sys.Serialization.{Archive}
use blockchain_messaging_sys.Client.Inbox.{push_back, is_empty, get_data, clear_buffer}
use blockchain_messaging_sys.Client.Listener.{
  Pc, Line, Listener, new_listener, Event, show, show_all, work_at, work, step, run,
}

-- The texts that arrive in a history.
abbrev pub arrivals : List Event → List Str
arrivals [] = []
arrivals (Event.arrives text ∷ es) = text ∷ arrivals es
arrivals (Event.works ∷ es) = arrivals es

module _ (archive : Archive) (tokenize : Str → Str → List Str) where
  -- Each of the texts is a message, which prints as its line.
  pub data Prints : List Str → List Line → Type 0 where
    none_left : Prints [] []
    one_more :
        {text : Str} {line : Line} {texts : List Str} {lines : List Line}
        → show archive tokenize text ≡ ok line
        → Prints texts lines
        → Prints (text ∷ texts) (line ∷ lines)

  pub show_all-Prints :
      {texts : List Str} {lines : List Line} (output : List Line)
      → Prints texts lines
      → show_all archive tokenize texts output ≡ ok (output ++ lines)
  unfolding show_all
  show_all-Prints output Prints.none_left = ap ok (sym (append-nil output))
  show_all-Prints output (Prints.one_more {line} {lines} e more) =
      rw e
        (show_all-Prints (output ++ line ∷ []) more ∙ ap ok (append_assoc output (line ∷ []) lines))

  -- A text that arrives while the handler holds its copy, or before it clears the buffer, comes late.
  abbrev pub IsOpen : Pc → Type 0
  IsOpen Pc.idle = Unit
  IsOpen Pc.tested = Unit
  IsOpen (Pc.copied msgs) = ⊥
  IsOpen Pc.printed = ⊥

  abbrev pub IsTimely : List Event → Listener → Type 0
  IsTimely [] l = Unit
  IsTimely (Event.arrives text ∷ es) l =
      IsOpen l.pc × IsTimely es (record l { buffer = push_back text l.buffer })
  IsTimely (Event.works ∷ es) l =
      let next : Listener → Type 0 = IsTimely es in
      elim (work archive tokenize l) [ fault e ↦ Unit | ok l' ↦ next l' ]

  abbrev pub IsMessage : Str → Type 0
  IsMessage text = (line : Line) × (show archive tokenize text ≡ ok line)

  -- Of all that arrived, the first texts are printed in order and the others wait in the buffer.
  abbrev pub Keeps : List Str → List Line → List Str → Type 0
  Keeps all output waiting =
      (shown : List Str) × (all ≡ shown ++ waiting) × Prints shown output × All IsMessage waiting

  abbrev pub AccountsAt : Pc → List Str → Listener → Type 0
  AccountsAt Pc.idle all l = Keeps all l.output l.buffer.entries
  AccountsAt Pc.tested all l = Keeps all l.output l.buffer.entries
  AccountsAt (Pc.copied msgs) all l =
      Keeps all l.output l.buffer.entries × (msgs ≡ l.buffer.entries)
  AccountsAt Pc.printed all l = Prints all l.output

  abbrev pub Accounts : List Str → Listener → Type 0
  Accounts all l = AccountsAt l.pc all l

  lines_of : (texts : List Str) → All IsMessage texts → (lines : List Line) × Prints texts lines
  lines_of [] h = ([], Prints.none_left)
  lines_of (text ∷ texts) ((line, e), more) =
      let (lines, prints) = lines_of texts more in (line ∷ lines, Prints.one_more e prints)

  Prints-append :
      {texts texts' : List Str} {lines lines' : List Line}
      → Prints texts lines
      → Prints texts' lines'
      → Prints (texts ++ texts') (lines ++ lines')
  Prints-append Prints.none_left q = q
  Prints-append (Prints.one_more e p) q = Prints.one_more e (Prints-append p q)

  printing :
      (msgs all : List Str) (l : Listener)
      → Keeps all l.output msgs
      → (l' : Listener) × (work_at archive tokenize (Pc.copied msgs) l ≡ ok l') × Accounts all l'
  unfolding work_at
  printing msgs all l (shown, e, prints, messages) =
      let (lines, more) = lines_of msgs messages in
      (
        record l { pc = Pc.printed; output = l.output ++ lines },
        rw (show_all-Prints l.output more) refl,
        subst (λ ts. Prints ts (l.output ++ lines)) (sym e) (Prints-append prints more),
      )

  work_at-Accounts :
      (pc : Pc) (all : List Str) (l : Listener)
      → AccountsAt pc all l
      → (l' : Listener) × (work_at archive tokenize pc l ≡ ok l') × Accounts all l'
  unfolding work_at is_empty get_data clear_buffer
  work_at-Accounts Pc.idle all l h = tested_or_not (is_empty l.buffer)
    where
      tested_or_not :
          (b : Bool)
          → (l' : Listener) × (ok (record l { pc = if b then Pc.idle else Pc.tested }) ≡ ok l')
            × Accounts all l'
      tested_or_not true = (record l { pc = Pc.idle }, refl, h)
      tested_or_not false = (record l { pc = Pc.tested }, refl, h)
  work_at-Accounts Pc.tested all l h =
      (record l { pc = Pc.copied l.buffer.entries }, refl, (h, refl))
  work_at-Accounts (Pc.copied msgs) all l (h, e) =
      printing msgs all l (subst (Keeps all l.output) (sym e) h)
  work_at-Accounts Pc.printed all l h = (
    record l { pc = Pc.idle; buffer = clear_buffer l.buffer },
    refl,
    (all, sym (append-nil all), h, tt),
  )

  All-snoc :
      (text : Str) (texts : List Str)
      → All IsMessage texts
      → IsMessage text
      → All IsMessage (texts ++ text ∷ [])
  All-snoc text [] h k = (k, tt)
  All-snoc text (t ∷ texts) (h, more) k = (h, All-snoc text texts more k)

  Keeps-push :
      (text : Str) (all : List Str) (output : List Line) (waiting : List Str)
      → IsMessage text
      → Keeps all output waiting
      → Keeps (all ++ text ∷ []) output (waiting ++ text ∷ [])
  Keeps-push text all output waiting k (shown, e, prints, messages) = (
    shown,
    ap (λ ts. ts ++ text ∷ []) e ∙ append_assoc shown waiting (text ∷ []),
    prints,
    All-snoc text waiting messages k,
  )

  arrives-Accounts :
      (pc : Pc) (text : Str) (all : List Str) (l : Listener)
      → IsOpen pc
      → IsMessage text
      → AccountsAt pc all l
      → AccountsAt pc (all ++ text ∷ []) (record l { buffer = push_back text l.buffer })
  unfolding push_back
  arrives-Accounts Pc.idle text all l o k h = Keeps-push text all l.output l.buffer.entries k h
  arrives-Accounts Pc.tested text all l o k h = Keeps-push text all l.output l.buffer.entries k h
  arrives-Accounts (Pc.copied msgs) text all l o k h = absurd o
  arrives-Accounts Pc.printed text all l o k h = absurd o

  run-Accounts :
      (es : List Event) (all : List Str) (l : Listener)
      → IsTimely es l
      → All IsMessage (arrivals es)
      → Accounts all l
      → (l' : Listener) × (run archive tokenize es l ≡ ok l') × Accounts (all ++ arrivals es) l'
  unfolding run step work
  run-Accounts [] all l timely ms h = (l, refl, subst (λ a. Accounts a l) (sym (append-nil all)) h)
  run-Accounts (Event.arrives text ∷ es) all l (o, timely) (k, ms) h =
      let (l', e, accounts) =
        run-Accounts es (all ++ text ∷ []) (record l { buffer = push_back text l.buffer }) timely ms
          (arrives-Accounts l.pc text all l o k h) in
      (l', e, subst (λ a. Accounts a l') (append_assoc all (text ∷ []) (arrivals es)) accounts)
  run-Accounts (Event.works ∷ es) all l timely ms h =
      let (l1, e1, h1) = work_at-Accounts l.pc all l h in
      let e1' : work archive tokenize l ≡ ok l1 = worked e1 in
      let (l', e, accounts) = run-Accounts es all l1 (next l1 e1') ms h1 in (l', rw e1' e, accounts)
    where
      worked :
          {l1 : Listener}
          → work_at archive tokenize l.pc l ≡ ok l1
          → work archive tokenize l ≡ ok l1
      worked e = e

      next : (l1 : Listener) → work archive tokenize l ≡ ok l1 → IsTimely es l1
      next l1 e =
          subst (λ (r : Result Listener). elim r [ fault e ↦ Unit | ok l' ↦ IsTimely es l' ]) e
            timely

  -- If every text that arrives is a message, and none arrives between the copy that
  -- `handleBufferedData` takes and the end of its turn, the listener never fails, and each message
  -- is printed once and in order of arrival or still waits in the buffer for the next turn.
  pub listener_lem :
      (es : List Event)
      → IsTimely es new_listener
      → All IsMessage (arrivals es)
      → (l : Listener) × (run archive tokenize es new_listener ≡ ok l) × Accounts (arrivals es) l
  listener_lem es timely ms =
      run-Accounts es [] new_listener timely ms ([], refl, Prints.none_left, tt)

  -- A message that arrives after the copy is taken is lost: the turn prints what had arrived
  -- before, and clears the buffer with the late message in it.
  pub late_message_lost :
      (l : Listener) (first late : Str) (rest : List Str) (lines : List Line)
      → l.pc ≡ Pc.idle
      → l.buffer.entries ≡ first ∷ rest
      → Prints (first ∷ rest) lines
      → run archive tokenize
          (Event.works ∷ Event.works ∷ Event.arrives late ∷ Event.works ∷ Event.works ∷ [])
          l
        ≡ ok (record { buffer = record { entries = [] }; pc = Pc.idle; output = l.output ++ lines })
  unfolding run step work work_at is_empty get_data clear_buffer push_back
  late_message_lost l first late rest lines at_rest waiting prints =
      rw (at_rest, work_at) (rw waiting (rw (show_all-Prints l.output prints) refl))
