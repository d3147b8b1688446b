-- ===== src/Slot/Waiters/Frame.antt =====
-- The handlers that wait leave the node's database, the slot's block, its place and the loop's
-- flag as they are, whatever the messages do while they wait.
use blockchain_messaging_sys.Prelude.{ℕ, ◌≡◌, List, [], ◌∷◌, Option, arith, ok}
use blockchain_messaging_sys.Serialization.{Archive}
use blockchain_messaging_sys.Redis.{Redis}
use blockchain_messaging_sys.Storage.State.{ConsensusStorage}
use blockchain_messaging_sys.Slot.State.{Slot, Outcome, Delivery, Moment}
use blockchain_messaging_sys.Slot.Steps.Frame.{SameChain, notify_election-SameChain}
use blockchain_messaging_sys.Slot.Waiters.{
  wait_for_inspection, wait_for_election, wait_for_contributors_data, wait_for_broadcast,
  take_broadcast, election_loop, draw_again,
}

module _ (archive : Archive) (redis : Redis) where
  pub wait_for_inspection-SameChain :
      (m : Moment) (s : Slot redis) {s' : Slot redis} {later : List Delivery}
      → wait_for_inspection archive redis m s ≡ Outcome.done (s', later)
      → SameChain s s'
  unfolding wait_for_inspection
  wait_for_inspection-SameChain m s e = ground arith

  draw_again-SameChain :
      (now draw : ℕ) (pointer : Option ℕ) (s : Slot redis) (storage : ConsensusStorage)
      {s' : Slot redis}
      → draw_again archive redis now draw pointer s storage ≡ ok s'
      → SameChain s s'
  unfolding draw_again
  draw_again-SameChain now draw pointer s storage e =
      ground (arith, notify_election-SameChain archive redis)

  election_loop-SameChain :
      (now : ℕ) (pointer : Option ℕ) (draws : List ℕ) (deliveries : List Delivery) (s : Slot redis)
      {s' : Slot redis} {later : List Delivery}
      → election_loop archive redis now pointer draws deliveries s ≡ Outcome.done (s', later)
      → SameChain s s'
  unfolding election_loop
  election_loop-SameChain now pointer [] deliveries s e = ground arith
  election_loop-SameChain now pointer (draw ∷ draws) deliveries s e =
      grind (arith, draw_again-SameChain, election_loop-SameChain now pointer draws)

  pub wait_for_election-SameChain :
      (m : Moment) (s : Slot redis) {s' : Slot redis} {later : List Delivery}
      → wait_for_election archive redis m s ≡ Outcome.done (s', later)
      → SameChain s s'
  unfolding wait_for_election
  wait_for_election-SameChain m s e = election_loop-SameChain m.now _ m.draws m.deliveries _ e

  pub wait_for_contributors_data-SameChain :
      (m : Moment) (s : Slot redis) {s' : Slot redis} {later : List Delivery}
      → wait_for_contributors_data archive redis m s ≡ Outcome.done (s', later)
      → SameChain s s'
  unfolding wait_for_contributors_data
  wait_for_contributors_data-SameChain m s e = ground arith

  pub wait_for_broadcast-SameChain :
      (m : Moment) (s : Slot redis) {s' : Slot redis} {later : List Delivery}
      → wait_for_broadcast archive redis m s ≡ Outcome.done (s', later)
      → SameChain s s'
  unfolding wait_for_broadcast take_broadcast
  wait_for_broadcast-SameChain m s e = ground arith
