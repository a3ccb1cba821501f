-- ===== src/Recorder/Client/Subscribe.antt =====
-- How often a connection of RealTime_Embedded_Systems/src/finnhub_client.cpp subscribes.
use university_collection.Prelude.{◌≡◌, ◌∙◌, ◌⊎◌, inl, inr}
use university_collection.Prelude.{Bool, true, false, Option, none, some, List, [], ◌∷◌, ◌++◌}
use university_collection.Recorder.Client.{
  Client, Event, established, receive, writeable, connection_error, closed, wsi_destroy,
  other_reason, interrupted,
}
use Prim.Native.String.{String}

-- What a result that was not thrown is worth.
abbrev pub Gives : (Client → Type 0) → Option Client → Type 0
Gives P none = Unit
Gives P (some d) = P d

-- What the delivery of trades leaves alone.
record Same (c d : Client) : Type 0 where
  written : d.written ≡ c.written
  symbols : d.symbols ≡ c.symbols
  subscribed : d.subscribed ≡ c.subscribed
  wsi : d.wsi ≡ c.wsi

-- How far a connection is that began with `w` written and the symbols `s`.
data Stage (w s : List String) (d : Client) : Type 0 where
  fresh : d.wsi ≡ true → d.subscribed ≡ false → d.written ≡ w → d.symbols ≡ s → Stage w s d
  done : d.wsi ≡ true → d.subscribed ≡ true → d.written ≡ w ++ s → Stage w s d
  over : d.wsi ≡ false → (d.written ≡ w) ⊎ (d.written ≡ w ++ s) → Stage w s d

Same-Stage : (w s : List String) (c d : Client) → Same c d → Stage w s c → Stage w s d
Same-Stage w s c d k (fresh on n e f) =
    fresh (k.wsi ∙ on) (k.subscribed ∙ n) (k.written ∙ e) (k.symbols ∙ f)
Same-Stage w s c d k (done on n e) = done (k.wsi ∙ on) (k.subscribed ∙ n) (k.written ∙ e)
Same-Stage w s c d k (over off (inl e)) = over (k.wsi ∙ off) (inl (k.written ∙ e))
Same-Stage w s c d k (over off (inr e)) = over (k.wsi ∙ off) (inr (k.written ∙ e))

-- What is written at a stage.
abbrev pub Once : List String → List String → Client → Type 0
Once w s d = (d.written ≡ w) ⊎ (d.written ≡ w ++ s)

Gives-Stage :
    (w s : List String) (c : Client) (r : Option Client)
    → Stage w s c
    → Gives (Same c) r
    → Gives (Stage w s) r
Gives-Stage w s c none t g = tt
Gives-Stage w s c (some d) t g = Same-Stage w s c d g t

-- Callbacks without a free socket.
abbrev Quiet : List Event → Type 0
Quiet [] = Unit
Quiet (writeable ∷ es) = ⊥
Quiet (established ∷ es) = Quiet es
Quiet (receive message arrival ∷ es) = Quiet es
Quiet (other_reason ∷ es) = Quiet es
Quiet (connection_error ∷ es) = Quiet es
Quiet (closed ∷ es) = Quiet es
Quiet (wsi_destroy ∷ es) = Quiet es
Quiet (interrupted ∷ es) = Quiet es

-- The callbacks of one call of the service: the socket is not free any more after the connection has ended
-- or the client was stopped.
abbrev pub Orderly : List Event → Type 0
Orderly [] = Unit
Orderly (writeable ∷ es) = Orderly es
Orderly (established ∷ es) = Orderly es
Orderly (receive message arrival ∷ es) = Orderly es
Orderly (other_reason ∷ es) = Orderly es
Orderly (connection_error ∷ es) = Quiet es
Orderly (closed ∷ es) = Quiet es
Orderly (wsi_destroy ∷ es) = Quiet es
Orderly (interrupted ∷ es) = Quiet es

abbrev pub AllOrderly : Option (List (List Event)) → Type 0
AllOrderly none = Unit
AllOrderly (some []) = Unit
AllOrderly (some (es ∷ calls)) = Orderly es × AllOrderly (some calls)

-- A stage with the connection as it is.
abbrev At : List String → List String → Bool → Client → Type 0
At w s on d = Stage w s d × (d.wsi ≡ on)
