-- ===== src/Storage/Election/Agreement.antt =====
-- Two nodes with the same votes: markValidator and then getValidator on both.
use blockchain_messaging_sys.Prelude.{ℕ, ◌≡◌, ◌≢◌, sym, ◌∙◌, [], Perm, Str, ok, subst}
use blockchain_messaging_sys.Storage.State.{ConsensusStorage}
use blockchain_messaging_sys.Storage.Queries.Laws.{EveryEntry}
use blockchain_messaging_sys.Storage.Election.{mark_validator, get_validator}
use blockchain_messaging_sys.Storage.Election.Votes.{votes, DistinctValues}
use blockchain_messaging_sys.Storage.Election.Best.{elected-agree}
use blockchain_messaging_sys.Storage.Election.Mark.{get_validator-mark_validator, IsUnmarked}

-- `markValidator` and `getValidator` succeed one after the other, with the validator `w`.
abbrev pub Nominates : ℕ → ℕ → ConsensusStorage → Str → Type 0
Nominates now slot s w =
    (s' : ConsensusStorage) × (s'' : ConsensusStorage) × (mark_validator now slot s ≡ ok s')
    × (get_validator now slot s' ≡ ok (s'', w))

ok-inj : {v w : Str} → ok v ≡ ok w → v ≡ w
ok-inj e = cc

-- Two nodes that know some node, have not yet marked one for the slot, and have received the same
-- votes, in whatever order their tables hold them and whatever else their entries say: where no two
-- votes have the same value, `markValidator` and `getValidator` succeed on both and give the same
-- validator.
pub same_validator :
    (now now' slot : ℕ) (s t : ConsensusStorage)
    → s.contexts ≢ []
    → t.contexts ≢ []
    → EveryEntry IsUnmarked now slot s.contexts
    → EveryEntry IsUnmarked now' slot t.contexts
    → Perm (votes now slot s.contexts) (votes now' slot t.contexts)
    → DistinctValues (votes now slot s.contexts)
    → (w : Str) × Nominates now slot s w × Nominates now' slot t w
same_validator now now' slot s t known known' unmarked unmarked' same distinct =
    let (s', s'', w, e, marks, gives, _) = get_validator-mark_validator now slot s known unmarked in
    let (t', t'', w', e', marks', gives', _) =
      get_validator-mark_validator now' slot t known' unmarked' in
    let agree : w' ≡ w =
      ok-inj (sym e' ∙ sym (elected-agree now now' slot s.contexts t.contexts same distinct) ∙ e) in
    (w, (s', s'', marks, gives), subst (Nominates now' slot t) agree (t', t'', marks', gives'))
