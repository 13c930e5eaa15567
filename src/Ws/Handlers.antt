-- ===== src/Ws/Handlers.antt =====
-- The reconnect handlers of frontend/app/store/ws.ts, and what an opening connection sends for the
-- one of frontend/app/store/wps.ts. A handler is a number, and what it pushes is a parameter.
use mathlib.Core.List.{append_assoc}
use testmerge.Base.{
  ℕ, zero, suc, ◌≡◌, refl, sym, ap, ◌∙◌, arith, String, true, false, Option, none, some, List, [],
  ◌∷◌, ◌++◌, ◌==◌, str_eq, eq_iff, if◌then◌else◌, Bool-cases, inl, inr,
}
use testmerge.Base.Maps
use testmerge.Events.{
  Subjects, SubjectContainer, Command, keys, updates, make_wave_resub_command,
  wps_reconnect_handler,
}
use testmerge.Ws.Drain.{outcomes, push_all-outcomes}
use testmerge.Ws.{WsControl, Effect, run_msg_queue, on_open}

abbrev pub Handler : Type 0
Handler = ℕ

unfoldable pub add_ws_reconnect_handler : List Handler → Handler → List Handler
add_ws_reconnect_handler handlers handler = handlers ++ handler ∷ []

unfoldable pub handler_index : List Handler → Handler → Option ℕ
handler_index [] handler = none
handler_index (h ∷ hs) handler =
    let rest = handler_index hs handler in
    if h == handler then some 0 else elim rest [ none ↦ none | some i ↦ some (suc i) ]

unfoldable pub splice_at : List Handler → ℕ → List Handler
splice_at [] i = []
splice_at (h ∷ hs) zero = hs
splice_at (h ∷ hs) (suc i) = h ∷ splice_at hs i

-- The search is in `this.reconnectHandlers`, which is given here: `none` is the TypeError of a `this`
-- that is undefined.
abbrev pub remove_found : List Handler → Option ℕ → List Handler
remove_found handlers none = handlers
remove_found handlers (some i) = splice_at handlers i

unfoldable pub remove_ws_reconnect_handler :
    Option (List Handler) → List Handler → Handler → Option (List Handler)
unfolding handler_index splice_at
remove_ws_reconnect_handler none handlers handler = none
remove_ws_reconnect_handler (some this_handlers) handlers handler =
    some (remove_found handlers (handler_index this_handlers handler))

module _ {M : Type 0} (pushes : Handler → List M) (size : M → ℕ) where
  -- The loop of onopen over the handlers.
  unfoldable pub run_handlers : List Handler → List M
  run_handlers [] = []
  run_handlers (h ∷ hs) = pushes h ++ run_handlers hs

  unfoldable pub reopened : WsControl M → List Handler → WsControl M × List (Effect M)
  unfolding run_handlers on_open
  reopened c handlers = on_open size c (run_handlers handlers)

on_open-outcomes :
    {M : Type 0} (size : M → ℕ) (c : WsControl M) (msgs : List M)
    → (on_open size c msgs).1
      ≡ outcomes size msgs ++ (run_msg_queue size (record c { is_open = true; opening = false })).1
unfolding on_open
on_open-outcomes size c msgs =
    ap (λ r. r.1 ++ (run_msg_queue size r.0).1)
      (push_all-outcomes size false c.reconnect_times c.last_reconnect_time c.msg_queue msgs)

-- The command of an event type is among those of the handler.
updates-split :
    (m all : Subjects) (t : String) (subjects : List SubjectContainer)
    → Maps.get m t ≡ some subjects
    → (pre : List Command) × (post : List Command) × (updates all (keys m)
        ≡ pre ++ make_wave_resub_command all t ∷ post)
unfolding Maps.get
updates-split [] all t subjects h = absurd (ground arith)
updates-split ((k, v) ∷ m) all t subjects h = elim (Bool-cases (str_eq k t)) [
  | inl e ↦ ([], updates all (keys m), rw ((eq_iff k t).0 e) refl)
  | inr e ↦
      let (pre, post, q) = updates-split m all t subjects (rw e at h) in
      (make_wave_resub_command all k ∷ pre, post, rw q refl)
]

-- The commands as messages of the connection.
abbrev pub messages {ℓ} : {M : Type ℓ} → (Command → M) → List Command → List M
messages embed [] = []
messages embed (x ∷ xs) = embed x ∷ messages embed xs

messages-split :
    {M : Type 0} (embed : Command → M) (pre : List Command) (x : Command) (post : List Command)
    (ending : List M)
    → messages embed (pre ++ x ∷ post) ++ ending
      ≡ messages embed pre ++ embed x ∷ (messages embed post ++ ending)
messages-split embed [] x post ending = refl
messages-split embed (y ∷ pre) x post ending =
    ap (λ ms. embed y ∷ ms) (messages-split embed pre x post ending)

run_handlers-split :
    {M : Type 0} (pushes : Handler → List M) (size : M → ℕ) (before after : List Handler)
    (h : Handler)
    → run_handlers pushes size (before ++ h ∷ after)
      ≡ run_handlers pushes size before ++ (pushes h ++ run_handlers pushes size after)
unfolding run_handlers
run_handlers-split pushes size [] after h = refl
run_handlers-split pushes size (g ∷ before) after h =
    ap (λ ms. pushes g ++ ms) (run_handlers-split pushes size before after h)
    ∙ sym (append_assoc (pushes g) (run_handlers pushes size before) _)

-- When a connection opens again and wpsReconnectHandler is one of its handlers, what the handlers
-- push goes out first, before anything that waits in the queue, or is too large; and the command of
-- every event type with a subscription is among it.
pub reopened-resubscribes :
    {M : Type 0} (embed : Command → M) (pushes : Handler → List M) (size : M → ℕ) (c : WsControl M)
    (before after : List Handler) (h : Handler) (m : Subjects) (t : String)
    (subjects : List SubjectContainer)
    → pushes h ≡ messages embed (wps_reconnect_handler m)
    → Maps.get m t ≡ some subjects
    → (pre : List M) × (post : List M) × ((reopened pushes size c (before ++ h ∷ after)).1
        ≡ outcomes size (pre ++ embed (make_wave_resub_command m t) ∷ post)
          ++ (run_msg_queue size (record c { is_open = true; opening = false })).1)
unfolding reopened wps_reconnect_handler
reopened-resubscribes embed pushes size c before after h m t subjects e g =
    let (pre, post, q) = updates-split m m t subjects g in
    let ending = run_handlers pushes size after in
    let start = run_handlers pushes size before in
    let pushed : run_handlers pushes size (before ++ h ∷ after)
        ≡ (start ++ messages embed pre)
          ++ embed (make_wave_resub_command m t) ∷ (messages embed post ++ ending) =
      run_handlers-split pushes size before after h
      ∙ ap (λ ms. start ++ (ms ++ ending)) (e ∙ ap (messages embed) q)
      ∙ ap (λ ms. start ++ ms) (messages-split embed pre _ post ending)
      ∙ sym (append_assoc start (messages embed pre) _) in
    (
      start ++ messages embed pre,
      messages embed post ++ ending,
      on_open-outcomes size c _
          ∙ ap
              (λ x.
                outcomes size x
                ++ (run_msg_queue size (record c { is_open = true; opening = false })).1)
              pushed,
    )
