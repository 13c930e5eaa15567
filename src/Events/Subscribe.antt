-- ===== src/Events/Subscribe.antt =====
-- Subscribing: the handlers that an event calls afterwards, and what the server is told.
use testmerge.Base.{
  String, ◌≡◌, Bool, true, false, ◌&&◌, Option, none, some, List, [], ◌∷◌, ◌++◌, str_eq,
}
use testmerge.Base.Maps
use testmerge.Events.{Handler, Subscription, Unsubscribe, WaveEvent, is_wanted}

-- No handler is null.
pub data AllHandlers : List (String × Subscription) → Type 0 where
  none_left : AllHandlers []
  and_handler :
      {id : String} {sub : Subscription} {rest : List (String × Subscription)} (h : Handler)
      → sub.handler ≡ some h
      → AllHandlers rest
      → AllHandlers ((id, sub) ∷ rest)

abbrev call_if : Bool → Option Handler → List Handler
call_if b none = []
call_if true (some h) = h ∷ []
call_if false (some h) = []

-- The handlers of the subscriptions that an event is for, in order.
abbrev pub called_of : WaveEvent → List (String × Subscription) → List Handler
called_of event [] = []
called_of event ((id, sub) ∷ rest) =
    call_if (str_eq sub.event_type event.event && is_wanted event.scopes sub.scope) sub.handler
    ++ called_of event rest

abbrev pub ids_of : List (String × Subscription) → List Unsubscribe
ids_of [] = []
ids_of ((id, sub) ∷ rest) = record { id = id; event_type = sub.event_type } ∷ ids_of rest
