-- ===== src/Rti.antt =====
-- core/federated/RTI/rti.c: the run-time infrastructure that coordinates the federates' tags. The
-- mutex makes each handler one step, which takes the state and returns the next one. `none` is what the
-- steps do not go into: an access out of range, signed overflow, and the wait for another thread to
-- send a federate its start time (Rti/Waiting.antt is about that one).
pub mod Agreement
pub mod Grant
pub mod Handlers
pub mod Stop
mod Tests
pub mod Diamond
pub mod Chunks
pub mod Formed
pub mod Keeps
pub mod Next
pub mod Order
pub mod Reach
pub mod Rules
pub mod Steps
pub mod Thread
pub mod Total
pub mod Waiting
use schedule_test_manual.Base.{
  ℕ, zero, suc, ◌≡◌, refl, Bool, true, false, ◌||◌, Option, none, some, List, [], ◌∷◌,
  if◌then◌else◌, length, get_elem?, set, replicate,
}
use schedule_test_manual.Base.Int.{ℤ, ltb_ℤ}
use schedule_test_manual.Tag.{Tag, delay_tag, forever_tag}
use schedule_test_manual.Tag.Compare.{is_before, is_at_most, earlier}
use schedule_test_manual.MessageRecord.{InTransit}
use schedule_test_manual.Net.{◌>>=◌}

-- fed_state_t
pub data FedState : Type 0 where
  not_connected granted pending : FedState

-- federate_t. Its id is its index among the federates; the arrays `upstream` and `upstream_delay` are
-- one list of pairs, and the counts are the lengths of the lists.
pub record Federate : Type 0 where
  pub completed : Tag
  pub last_granted : Tag
  pub last_provisionally_granted : Tag
  pub next_event : Tag
  pub in_transit_message_tags : InTransit
  pub state : FedState
  pub upstream : List (ℕ × ℤ)
  pub downstream : List ℕ
  pub requested_stop : Bool

-- the messages to a federate that carry a tag
pub data Message : Type 0 where
  tag_advance_grant : Tag → Message
  provisional_tag_advance_grant : Tag → Message
  stop_request : Tag → Message
  stop_granted : Tag → Message

-- what write_to_socket does with a message: all bytes written, fewer, or an error
pub data Write : Type 0 where
  complete short failed : Write

-- the part of RTI_instance_t that tags depend on, the start time, and the flag that the stop tag has
-- been sent; then what has been written so far, newest first, and what the writes to come will do
pub record RtiInstance : Type 0 where
  pub max_stop_tag : Tag
  pub federates : List Federate
  pub num_feds_handling_stop : ℕ
  pub start_time : ℤ
  pub stop_granted_already_sent : Bool
  pub sent : List (ℕ × Message)
  pub writes : ℕ → Write

-- what both parts of a chain give, where the chain gives something
pub >>=-eq-some {ℓ κ} :
    {A : Type ℓ} {B : Type κ} (m : Option A) (f : A → Option B) {b : B}
    → (m >>= f) ≡ some b
    → (a : A) × (m ≡ some a) × (f a ≡ some b)
>>=-eq-some (some a) f h = (a, refl, h)
>>=-eq-some none f h = cc

abbrev pub is_not_connected : FedState → Bool
is_not_connected not_connected = true
is_not_connected _ = false

abbrev pub is_pending : FedState → Bool
is_pending pending = true
is_pending _ = false

abbrev pub put_federate : ℕ → Federate → RtiInstance → RtiInstance
put_federate id fed rti = record rti { federates = set rti.federates id fed }

-- the boolean array that calloc gives
abbrev pub unvisited : RtiInstance → List Bool
unvisited rti = replicate (length rti.federates) false

-- transitive_next_event, before the loop over the upstream federates: the next event or the candidate,
-- and no earlier than the start time
abbrev pub start_from : ℤ → Federate → Tag → Tag
start_from start_time fed candidate =
    let result = earlier candidate fed.next_event in
    if ltb_ℤ result.time start_time then record { time = start_time; microstep = 0 } else result

-- the loop of transitive_next_event, for the call `next` on an upstream federate
unfoldable pub upstream_loop :
    (ℕ → Tag → List Bool → Option (Tag × List Bool))
    → List (ℕ × ℤ)
    → Tag
    → List Bool
    → Option (Tag × List Bool)
upstream_loop next [] result visited = some (result, visited)
upstream_loop next ((upstream, delay) ∷ more) result visited = next upstream result visited >>= λ r.
    delay_tag r.0 delay >>= λ upstream_result.
    upstream_loop next more (earlier upstream_result result) r.1

-- transitive_next_event, with the array `visited` as it leaves it. Each call marks a federate, so that
-- calls nest no deeper than there are federates.
unfoldable pub transitive_next_event :
    ℕ → RtiInstance → ℕ → Tag → List Bool → Option (Tag × List Bool)
transitive_next_event zero rti id candidate visited = none
transitive_next_event (suc fuel) rti id candidate visited = get_elem? rti.federates id >>= λ fed.
    get_elem? visited id >>= λ seen.
    if seen || is_not_connected fed.state
    then some (candidate, visited)
    else (upstream_loop (transitive_next_event fuel rti) fed.upstream
          (start_from rti.start_time fed candidate) (set visited id true)
        >>= λ r. some (if is_before r.0 fed.completed then fed.completed else r.0, r.1))

-- the fuel for a graph of these federates
abbrev pub depth : RtiInstance → ℕ
depth rti = suc (length rti.federates)
