-- ===== src/Blinker/Laws.antt =====
-- What the loop of Microprocessors_And_Peripherals/02. GPIO, Interrupts, Timers/main.c relies on from
-- the driver's queues, and lists of messages.
use university_collection.Prelude.{ℕ, suc, ◌+◌, ◌≤◌, ◌<◌, ◌≡◌, refl, ap}
use university_collection.Prelude.{List, [], ◌∷◌, ◌++◌}
use university_collection.Blinker.{queue_size, Enqueue, Board, Event, press, tick, receive_char}
use university_collection.Blinker.{round, step}

abbrev pub length : List ℕ → ℕ
length [] = 0
length (msg ∷ rest) = suc (length rest)

-- `queue_enqueue` appends as long as there is room.
abbrev pub Appends : Enqueue → Type 0
Appends enqueue = (size v : ℕ) (q : List ℕ) → length q < size → enqueue size v q ≡ q ++ (v ∷ [])

-- Room for the messages of an event.
abbrev pub Room : Event → Board → Type 0
Room press b = length b.msg_queue + 2 ≤ queue_size
Room tick b = length b.msg_queue + 1 ≤ queue_size
Room (receive_char c) b = Unit
Room round b = Unit

-- Room at each of the events.
abbrev pub Fits : Enqueue → List Event → Board → Type 0
Fits enqueue [] b = Unit
Fits enqueue (e ∷ es) b = Room e b × Fits enqueue es (step enqueue e b)

pub length-append : (q : List ℕ) (v : ℕ) → length (q ++ (v ∷ [])) ≡ suc (length q)
length-append [] v = refl
length-append (x ∷ q) v = ap suc (length-append q v)
