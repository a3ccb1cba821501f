-- ===== src/Recorder/Client/Session.antt =====
-- Connections of the client of RealTime_Embedded_Systems/src/finnhub_client.cpp, one after the other.
use university_collection.Prelude.{ℕ, ◌+◌, ◌-◌, ◌≤◌, ◌<◌, ◌≡◌, refl, sym, ◌∙◌, subst, inl, inr}
use university_collection.Prelude.{
  Bool, true, false, not, ◌&&◌, ltb, if◌then◌else◌, Bool-cases, if_elim, Option, none, some, List,
  [], ◌∷◌, arith,
}
use university_collection.Prelude.Int.{ℤ}
use university_collection.Recorder.Config.{length}
use university_collection.Recorder.Client.{
  ◌>>=◌, Client, Event, established, receive, writeable, connection_error, closed, wsi_destroy,
  other_reason, interrupted,
}
use university_collection.Recorder.Client.{
  reset, stop, subscribe_to_symbols, websocket_callback, callbacks, serve, connect, Attempt,
  run_loop, slept, reconnect_timeout_ms,
}

-- A connection that cannot be opened, or whose first call of the service brings an error.
abbrev refused_connection : Option (List (List Event)) → Option (List (List Event))
refused_connection none = none
refused_connection (some calls) = some ((connection_error ∷ []) ∷ calls)

abbrev pub refusals : List (Option (List (List Event))) → List Attempt
refusals [] = []
refusals (o ∷ rest) =
    record { interrupted_asleep = false; connection = refused_connection o } ∷ refusals rest

-- A refused connection counts, and changes nothing else that the loop reads.
refused_lem :
    (o : Option (List (List Event))) (c : Client)
    → (d : Client) × (connect (refused_connection o) c ≡ some d)
      × (d.connection_attempts ≡ c.connection_attempts + 1)
      × (d.max_connection_attempts ≡ c.max_connection_attempts)
      × (d.should_stop ≡ c.should_stop)
unfolding connect serve callbacks websocket_callback reset
refused_lem none c = (_, refl, refl, refl, refl)
refused_lem (some []) c = (_, refl, refl, refl, refl)
refused_lem (some (e ∷ es)) c = (_, refl, refl, refl, refl)

-- How a loop ends that gave up.
abbrev pub GaveUp : (attempts most : ℕ) → Option (Client × List ℤ) → Type 0
GaveUp attempts most none = ⊥
GaveUp attempts most (some (c, delays)) =
    (c.connection_attempts ≡ most) × (length delays ≡ most - attempts)

slept-GaveUp :
    (attempts most : ℕ) (delay : ℤ) (r : Option (Client × List ℤ))
    → attempts < most
    → GaveUp (attempts + 1) most r
    → GaveUp attempts most (slept delay r)
slept-GaveUp attempts most delay none lt g = g
slept-GaveUp attempts most delay (some (c, delays)) lt g = (g.0, omega (arith, g.1, lt))

-- If every attempt to reconnect is refused, the loop of `run` gives up: it ends after exactly as many
-- attempts as are left, each after its delay, with the count of attempts at its maximum.
pub run_loop-GaveUp :
    (os : List (Option (List (List Event)))) (c : Client)
    → c.should_stop ≡ false
    → c.connection_attempts ≤ c.max_connection_attempts
    → c.max_connection_attempts ≤ c.connection_attempts + length os
    → GaveUp c.connection_attempts c.max_connection_attempts (run_loop (refusals os) c)
unfolding run_loop
run_loop-GaveUp [] c s le enough = (omega (arith, le, enough), omega (arith, le, enough))
run_loop-GaveUp (o ∷ os) c s le enough =
    let most = c.max_connection_attempts in
    let count = c.connection_attempts in
    let again =
      slept (reconnect_timeout_ms c)
        (connect (refused_connection o) c >>= run_loop (refusals os)) in
    elim (Bool-cases (ltb count most)) [
      | inl more ↦
          let (d, e, n, m, f) = refused_lem o c in
          let lt : count < most = ground (arith, more) in
          let test : (not c.should_stop && ltb count most) ≡ true = ground (arith, s, more) in
          let later =
            run_loop-GaveUp os d (f ∙ s) (omega (arith, n, m, lt)) (omega (arith, n, m, enough)) in
          let moved =
            subst (λ k. GaveUp k most (run_loop (refusals os) d)) n
              (subst (λ k. GaveUp d.connection_attempts k (run_loop (refusals os) d)) m later) in
          subst (λ b. GaveUp count most (if b then again else some (c, []))) (sym test)
            (subst
              (λ r.
                GaveUp count most (slept (reconnect_timeout_ms c) (r >>= run_loop (refusals os))))
              (sym e)
              (slept-GaveUp count most (reconnect_timeout_ms c) (run_loop (refusals os) d) lt
                moved))
      | inr last ↦
          let test : (not c.should_stop && ltb count most) ≡ false = ground (arith, s, last) in
          subst (λ b. GaveUp count most (if b then again else some (c, []))) (sym test)
            (ground (arith, last, le), ground (arith, last, le))
    ]

-- Events that neither bring trades nor end a connection.
abbrev pub Calm : List Event → Type 0
Calm [] = Unit
Calm (established ∷ es) = Calm es
Calm (writeable ∷ es) = Calm es
Calm (other_reason ∷ es) = Calm es
Calm (receive message arrival ∷ es) = ⊥
Calm (connection_error ∷ es) = ⊥
Calm (closed ∷ es) = ⊥
Calm (wsi_destroy ∷ es) = ⊥
Calm (interrupted ∷ es) = ⊥

abbrev pub AllCalm : List (List Event) → Type 0
AllCalm [] = Unit
AllCalm (es ∷ calls) = Calm es × AllCalm calls

-- A result with the connection open and the stop flag as it was.
abbrev Open : Bool → Option Client → Type 0
Open flag none = ⊥
Open flag (some d) = (d.wsi ≡ true) × (d.should_stop ≡ flag)

callbacks-Open :
    (flag : Bool) (es : List Event) (c : Client)
    → c.wsi ≡ true
    → c.should_stop ≡ flag
    → Calm es
    → Open flag (callbacks es c)
unfolding callbacks websocket_callback subscribe_to_symbols
callbacks-Open flag [] c w s k = (w, s)
callbacks-Open flag (established ∷ es) c w s k =
    callbacks-Open flag es (record c { connection_attempts = 0 }) w s k
callbacks-Open flag (writeable ∷ es) c w s k =
    if_elim (λ d. Open flag (callbacks es d)) (not c.subscribed) _ _
      (λ fresh.
        callbacks-Open flag es (record (subscribe_to_symbols c) { subscribed = true }) w s k)
      (λ done. callbacks-Open flag es c w s k)
callbacks-Open flag (other_reason ∷ es) c w s k = callbacks-Open flag es c w s k
callbacks-Open flag (receive message arrival ∷ es) c w s k = elim k [ ]
callbacks-Open flag (connection_error ∷ es) c w s k = elim k [ ]
callbacks-Open flag (closed ∷ es) c w s k = elim k [ ]
callbacks-Open flag (wsi_destroy ∷ es) c w s k = elim k [ ]
callbacks-Open flag (interrupted ∷ es) c w s k = elim k [ ]

Open-bind :
    (flag : Bool) (r : Option Client) (next : Client → Option Client)
    → Open flag r
    → ((d : Client) → d.wsi ≡ true → d.should_stop ≡ flag → Open flag (next d))
    → Open flag (r >>= next)
Open-bind flag none next o f = o
Open-bind flag (some d) next o f = f d o.0 o.1

serve-Open :
    (flag : Bool) (calls : List (List Event)) (c : Client)
    → c.wsi ≡ true
    → c.should_stop ≡ flag
    → AllCalm calls
    → Open flag (serve calls c)
unfolding serve
serve-Open flag [] c w s k = (w, s)
serve-Open flag (es ∷ calls) c w s k =
    if_elim (Open flag) c.wsi _ _
      (λ on.
        Open-bind flag (callbacks es c) (serve calls) (callbacks-Open flag es c w s k.0)
          (λ d on same. serve-Open flag calls d on same k.1))
      (λ off. (w, s))

-- The end of a loop after one round.
abbrev pub StillOpen : Option (Client × List ℤ) → Type 0
StillOpen none = ⊥
StillOpen (some (d, delays)) = (d.wsi ≡ true) × (d.should_stop ≡ true)

slept-StillOpen :
    (delay : ℤ) (r : Option Client) → Open true r → StillOpen (slept delay (r >>= run_loop []))
unfolding run_loop
slept-StillOpen delay none o = o
slept-StillOpen delay (some d) o = o

-- A SIGINT during the sleep before an attempt to reconnect does not stop the client: it connects all the
-- same, and as long as the connection is calm, it stays in its event loop with the stop flag set.
pub run_loop_interrupted_asleep :
    (c : Client) (calls : List (List Event))
    → c.should_stop ≡ false
    → c.connection_attempts < c.max_connection_attempts
    → AllCalm calls
    → StillOpen (run_loop (record { interrupted_asleep = true; connection = some calls } ∷ []) c)
unfolding run_loop connect stop
run_loop_interrupted_asleep c calls s more k =
    let test : (not c.should_stop && ltb c.connection_attempts c.max_connection_attempts) ≡ true =
      ground (arith, s, more) in
    let again = slept (reconnect_timeout_ms c) (connect (some calls) (stop c) >>= run_loop []) in
    subst (λ b. StillOpen (if b then again else some (c, []))) (sym test)
      (slept-StillOpen (reconnect_timeout_ms c) (connect (some calls) (stop c))
        (serve-Open true calls _ refl refl k))
