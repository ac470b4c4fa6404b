-- ===== src/Server/Client/Delivery.antt =====
-- What a subscriber receives from a broadcast.
use caterm.Prelude.{
  true, false, none, some, List, [], ◌∷◌, ◌++◌, map, retain, any, ◌≡◌, refl, ◌∙◌, sym, ap, arith,
  Bool-cases, inl, inr, append_assoc_lem, if◌then◌else◌,
}
use caterm.Event.{ServerEvent}
use caterm.Snapshot.{ServerSnapshot}
use caterm.Server.State.{Subscriber, ClientState}
use caterm.Server.Client.{deliver, outbound}
use caterm.Server.Filter.{matches_event}

-- The events of a broadcast that concern the client, as it sees them.
abbrev pub inbox : ServerSnapshot → ClientState → List ServerEvent → List ServerEvent
inbox base state events = map (outbound base state) (retain (matches_event state.filter) events)

abbrev pub received : Subscriber → List ServerEvent → Subscriber
received subscriber more = record subscriber { events = subscriber.events ++ more }

append_nil : {A : Type 0} (l : List A) → l ++ [] ≡ l
append_nil [] = refl
append_nil (x ∷ l) = ap (λ m. x ∷ m) (append_nil l)

-- A subscriber whose channel is open gets the events that match its filter, all of them and in their
-- order, behind those it has got before, with its own view in the place of a snapshot.
pub deliver_open :
    (base : ServerSnapshot) (events : List ServerEvent) (subscriber : Subscriber)
    → subscriber.closed ≡ false
    → deliver base events subscriber
      ≡ some (received subscriber (inbox base subscriber.client_state events))
unfolding deliver
deliver_open base [] subscriber open_channel =
    ap (λ l. some (record subscriber { events = l })) (sym (append_nil subscriber.events))
deliver_open base (event ∷ events) subscriber open_channel =
    elim (Bool-cases (matches_event subscriber.client_state.filter event)) [
      | inl hit ↦
          let sent = outbound base subscriber.client_state event in
          rw hit (
            ap (λ b. if b then none else deliver base events (received subscriber (sent ∷ [])))
              open_channel
            ∙ deliver_open base events (received subscriber (sent ∷ [])) open_channel
            ∙ ap (λ l. some (record subscriber { events = l }))
                (append_assoc_lem subscriber.events (sent ∷ [])
                  (inbox base subscriber.client_state events)))
      | inr miss ↦ rw miss (deliver_open base events subscriber open_channel)
    ]

-- A subscriber whose channel is closed is dropped exactly when an event of the broadcast matches its
-- filter.
pub deliver_closed :
    (base : ServerSnapshot) (events : List ServerEvent) (subscriber : Subscriber)
    → subscriber.closed ≡ true
    → deliver base events subscriber ≡ (
        if any (matches_event subscriber.client_state.filter) events then none else some subscriber)
unfolding deliver
deliver_closed base [] subscriber closed = refl
deliver_closed base (event ∷ events) subscriber closed =
    ground (arith, deliver_closed base events subscriber closed)
