-- ===== src/Producer/Laws.antt =====
-- What the commands of the producer send.
use mathlib.Core.List.{append_assoc, append-nil}
use blockchain_messaging_sys.Prelude.{
  Bool, false, List, [], ◌∷◌, ◌++◌, Option, none, some, Str, str_dec, codes, Result, ok, fault,
  Fault, if◌then◌else◌, ◌≡◌, ◌≢◌, inl, inr, refl, sym, ap, ◌∙◌, All, Bool-cases, ite_cases, not,
  ◌||◌, subst, if_pos, if_neg,
}
use blockchain_messaging_sys.Itf.{NodeInfo, NodeConfiguration}
use blockchain_messaging_sys.Text.{to_lower, is_space}
use blockchain_messaging_sys.Text.Words.{Reads, tokenize_by_space_iff}
use blockchain_messaging_sys.Producer.{
  Sent, Ending, send_to, send_to_all, send_to_found, send, broadcast, dispatch, run_words,
  parse_command, get_node_by_name,
}

-- The first of the nodes with this name.
abbrev pub FirstNamed : Str → List NodeInfo → Option NodeInfo → Type 0
FirstNamed name nodes none = All (λ (n : NodeInfo). name ≢ n.name) nodes
FirstNamed name nodes (some node) =
    (before : List NodeInfo) × (after : List NodeInfo) × (nodes ≡ before ++ node ∷ after)
    × (name ≡ node.name)
    × All (λ (n : NodeInfo). name ≢ n.name) before

FirstNamed-step :
    (name : Str) (n : NodeInfo) (nodes : List NodeInfo) (o : Option NodeInfo)
    → name ≢ n.name
    → FirstNamed name nodes o
    → FirstNamed name (n ∷ nodes) o
FirstNamed-step name n nodes none d h = (d, h)
FirstNamed-step name n nodes (some node) d (before, after, e, same, others) =
    (n ∷ before, after, ap (◌∷◌ n) e, same, (d, others))

pub get_node_by_name-FirstNamed :
    (name : Str) (nodes : List NodeInfo) → FirstNamed name nodes (get_node_by_name name nodes)
unfolding get_node_by_name
get_node_by_name-FirstNamed name [] = tt
get_node_by_name-FirstNamed name (n ∷ nodes) = elim (str_dec name n.name) [
  | yes e ↦ rw (if_pos _ e) ([], nodes, refl, e, tt)
  | no e ↦ rw (if_neg _ e) (
      FirstNamed-step name n nodes (get_node_by_name name nodes) e
        (get_node_by_name-FirstNamed name nodes))
]

abbrev pub is_any_refused : (Str → Bool) → List NodeInfo → Bool
is_any_refused accepts [] = false
is_any_refused accepts (node ∷ nodes) = not (accepts node.address) || is_any_refused accepts nodes

module _ (accepts : Str → Bool) (declares : NodeInfo → Bool) where
  -- What one message to a list of nodes puts out: one for each node whose queue is declared, of the
  -- nodes before the first whose address is refused.
  abbrev pub to_each : List NodeInfo → Str → List Sent
  to_each [] message = []
  to_each (node ∷ nodes) message =
      let rest = to_each nodes message in
      if not (accepts node.address)
      then []
      else if declares node
      then record { address = node.address; queue = node.name; text = message } ∷ rest
      else rest

  -- An exception ends the sending exactly where the address of some node is refused.
  abbrev pub ending_of : List NodeInfo → Ending
  ending_of nodes = if is_any_refused accepts nodes then Ending.throws else Ending.goes_on

  send_to_all_lem :
      (nodes : List NodeInfo) (config : NodeConfiguration) (message : Str) (sent : List Sent)
      → send_to_all accepts declares config nodes message sent
        ≡ (ending_of nodes, sent ++ to_each nodes message)
  unfolding send_to_all send_to
  send_to_all_lem [] config message sent = ap (λ l. (Ending.goes_on, l)) (sym (append-nil sent))
  send_to_all_lem (node ∷ nodes) config message sent = elim (Bool-cases (accepts node.address)) [
    | inr refused ↦
        rw (refused, if◌then◌else◌) (ap (λ l. (Ending.throws, l)) (sym (append-nil sent)))
    | inl accepted ↦ elim (Bool-cases (declares node)) [
      | inl h ↦
          rw (accepted, if◌then◌else◌)
            (rw h (
              send_to_all_lem nodes config message _
              ∙ ap (λ l. (ending_of nodes, l))
                  (append_assoc sent (_ ∷ []) (to_each nodes message))))
      | inr h ↦ rw (accepted, if◌then◌else◌) (rw h (send_to_all_lem nodes config message sent))
    ]
  ]

  module _ (config : NodeConfiguration) where
    -- What a command does, of its operation in lower case and its arguments: whether the loop ends,
    -- and what is sent.
    pub data Does (operation : Str) : List Str → Ending → List Sent → Type 0 where
      sends :
          {name message : Str} {more : List Str} (node : NodeInfo)
          → operation ≡ codes "send"
          → FirstNamed name config.nodes (some node)
          → Does operation
              (name ∷ message ∷ more)
              (ending_of (node ∷ []))
              (to_each (node ∷ []) message)
      unregistered :
          {name message : Str} {more : List Str}
          → operation ≡ codes "send"
          → FirstNamed name config.nodes none
          → Does operation (name ∷ message ∷ more) Ending.goes_on []
      broadcasts :
          {message : Str} {more : List Str}
          → operation ≡ codes "broadcast"
          → Does operation (message ∷ more) (ending_of config.nodes) (to_each config.nodes message)
      no_message : operation ≡ codes "broadcast" → Does operation [] Ending.goes_on []
      no_name : operation ≡ codes "send" → Does operation [] Ending.goes_on []
      name_only :
          {name : Str} → operation ≡ codes "send" → Does operation (name ∷ []) Ending.goes_on []
      exits : {args : List Str} → operation ≡ codes "exit" → Does operation args Ending.exits []
      no_command :
          {args : List Str}
          → operation ≢ codes "send"
          → operation ≢ codes "broadcast"
          → operation ≢ codes "exit"
          → Does operation args Ending.goes_on []

    abbrev DoneBy : Str → List Str → List Sent → Ending × List Sent → Type 0
    DoneBy operation args sent result =
        (out : List Sent) × (result.1 ≡ sent ++ out) × Does operation args result.0 out

    -- A result that is known, for DoneBy.
    done_by :
        (operation : Str) (args : List Str) (sent out : List Sent) (ends : Ending)
        (result : Ending × List Sent)
        → result ≡ (ends, sent ++ out)
        → Does operation args ends out
        → DoneBy operation args sent result
    done_by operation args sent out ends result e does =
        subst (DoneBy operation args sent) (sym e) (out, refl, does)

    nothing_sent :
        (operation : Str) (args : List Str) (sent : List Sent) (ends : Ending)
        → Does operation args ends []
        → DoneBy operation args sent (ends, sent)
    nothing_sent operation args sent ends does = ([], sym (append-nil sent), does)

    send_to_one :
        (node : NodeInfo) (message : Str) (sent : List Sent)
        → send_to accepts declares config node message sent
          ≡ (ending_of (node ∷ []), sent ++ to_each (node ∷ []) message)
    unfolding send_to
    send_to_one node message sent = elim (Bool-cases (accepts node.address)) [
      | inr refused ↦
          rw (refused, if◌then◌else◌) (ap (λ l. (Ending.throws, l)) (sym (append-nil sent)))
      | inl accepted ↦ elim (Bool-cases (declares node)) [
        | inl h ↦ rw (accepted, if◌then◌else◌) (rw h refl)
        | inr h ↦
            rw (accepted, if◌then◌else◌)
              (rw h (ap (λ l. (Ending.goes_on, l)) (sym (append-nil sent))))
      ]
    ]

    found :
        (operation name message : Str) (more : List Str) (sent : List Sent) (o : Option NodeInfo)
        → operation ≡ codes "send"
        → FirstNamed name config.nodes o
        → DoneBy operation
            (name ∷ message ∷ more)
            sent
            (send_to_found accepts declares config o message sent)
    unfolding send_to_found
    found operation name message more sent none e h =
        nothing_sent operation (name ∷ message ∷ more) sent Ending.goes_on (Does.unregistered e h)
    found operation name message more sent (some node) e h =
        done_by operation (name ∷ message ∷ more) sent (to_each (node ∷ []) message)
          (ending_of (node ∷ [])) _ (send_to_one node message sent) (Does.sends node e h)

    send_lem :
        (operation : Str) (args : List Str) (sent : List Sent)
        → operation ≡ codes "send"
        → DoneBy operation args sent (send accepts declares config args sent)
    unfolding send
    send_lem operation [] sent e = nothing_sent operation [] sent Ending.goes_on (Does.no_name e)
    send_lem operation (name ∷ []) sent e =
        nothing_sent operation (name ∷ []) sent Ending.goes_on (Does.name_only e)
    send_lem operation (name ∷ message ∷ more) sent e =
        found operation name message more sent (get_node_by_name name config.nodes) e
          (get_node_by_name-FirstNamed name config.nodes)

    broadcast_lem :
        (operation : Str) (args : List Str) (sent : List Sent)
        → operation ≡ codes "broadcast"
        → DoneBy operation args sent (broadcast accepts declares config args sent)
    unfolding broadcast
    broadcast_lem operation [] sent e =
        nothing_sent operation [] sent Ending.goes_on (Does.no_message e)
    broadcast_lem operation (message ∷ more) sent e =
        done_by operation (message ∷ more) sent (to_each config.nodes message)
          (ending_of config.nodes) _ (send_to_all_lem config.nodes config message sent)
          (Does.broadcasts e)

    dispatch_lem :
        (operation : Str) (args : List Str) (sent : List Sent)
        → DoneBy operation args sent (dispatch accepts declares config operation args sent)
    unfolding dispatch
    dispatch_lem operation args sent =
        let P : Ending × List Sent → Type 0 = DoneBy operation args sent in
        ite_cases P (str_dec operation (codes "send")) (send_lem operation args sent) λ d.
          ite_cases P (str_dec operation (codes "broadcast")) (broadcast_lem operation args sent)
            λ d'.
              ite_cases P (str_dec operation (codes "exit"))
                (λ e. ([], sym (append-nil sent), Does.exits e))
                (λ d''. ([], sym (append-nil sent), Does.no_command d d' d''))

    -- The result of a command, of the words of its line.
    abbrev pub Obeys : List Str → List Sent → Result (Ending × List Sent) → Type 0
    Obeys [] sent result = result ≡ fault Fault.out_of_range
    Obeys (word ∷ args) sent result =
        (ends : Ending) × (out : List Sent) × (result ≡ ok (ends, sent ++ out))
        × Does (to_lower word) args ends out

    run_words-Obeys :
        (words : List Str) (sent : List Sent)
        → Obeys words sent (run_words accepts declares config words sent)
    unfolding run_words
    run_words-Obeys [] sent = refl
    run_words-Obeys (word ∷ args) sent =
        let (out, e, does) = dispatch_lem (to_lower word) args sent in
        (
          (dispatch accepts declares config (to_lower word) args sent).0,
          out,
          ap (λ l. ok ((dispatch accepts declares config (to_lower word) args sent).0, l)) e,
          does,
        )

    -- A command line does what its words ask for, in upper or lower case: `send` puts one message
    -- out, to the first node of that name, `broadcast` one to each node of the configuration in
    -- order, each only if the node's queue can be declared, `exit` ends the loop, and everything
    -- else sends nothing. An address that is refused ends the sending by an exception, with the
    -- messages to the nodes before it sent. A line of nothing but spaces has no first word: the
    -- access is out of range.
    pub parse_command_lem :
        (command : Str) (words : List Str) (sent : List Sent)
        → Reads is_space words command
        → Obeys words sent (parse_command accepts declares config command sent)
    unfolding parse_command
    parse_command_lem command words sent reads =
        rw ((tokenize_by_space_iff command words).1 reads) (run_words-Obeys words sent)
