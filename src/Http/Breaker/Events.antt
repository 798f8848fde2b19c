-- ===== src/Http/Breaker/Events.antt =====
-- The events of a breaker: `wireEvents` and `dispose` of opossum-circuit-breaker.adapter.ts, and
-- `transition` of pino-http-client-logger.adapter.ts, which the adapter of a client calls for them.
-- The emitter of node that an opossum breaker is, is a parameter.
use email_platform_services.Common.{
  ℕ, ◌≡◌, refl, ap, sym, ◌∙◌, String, Bool, true, false, List, [], ◌∷◌, ◌++◌, if◌then◌else◌,
}
use email_platform_services.Http.Executor.{Level, info, warn}

pub data Transition : Type 0 where
  to_open to_half_open to_close : Transition

abbrev pub same : Transition → Transition → Bool
same to_open to_open = true
same to_half_open to_half_open = true
same to_close to_close = true
same _ _ = false

pub record TransitionLine : Type 0 where
  pub level : Level
  pub api : String
  pub transition : Transition

-- `transition` of the logger.
unfoldable pub transition_line : String → Transition → TransitionLine
transition_line api to_close = record { level = info; api = api; transition = to_close }
transition_line api t = record { level = warn; api = api; transition = t }

-- A function that listens: one of the adapter's, which calls `onTransition`, or another's.
pub data Listener : Type 0 where
  on_transition : Transition → Listener
  foreign : ℕ → Listener

-- Each listener runs, in the order of the list.
unfoldable pub run_all : {W : Type 0} → (Listener → W → W) → List Listener → W → W
run_all run [] w = w
run_all run (fn ∷ fns) w = run_all run fns (run fn w)

-- Node's emitter: `on` puts a listener last, `off` takes the one that was added last away, and
-- `emit` runs the listeners of an event.
pub record Emitter : Type 1 where
  pub Breaker : Type 0
  pub listeners : Transition → Breaker → List Listener
  pub on : Transition → Listener → Breaker → Breaker
  pub off : Transition → Listener → Breaker → Breaker
  pub shutdown : Breaker → Breaker
  pub emit : {W : Type 0} → (Listener → W → W) → Transition → Breaker → W → W
  pub on_adds :
      (ev own : Transition) (fn : Listener) (b : Breaker)
      → listeners own (on ev fn b)
        ≡ (if same ev own then listeners own b ++ (fn ∷ []) else listeners own b)
  pub off_added :
      (ev : Transition) (fn : Listener) (b : Breaker) (fns : List Listener)
      → listeners ev b ≡ fns ++ (fn ∷ [])
      → listeners ev (off ev fn b) ≡ fns
  pub off_other :
      (ev own : Transition) (fn : Listener) (b : Breaker)
      → same ev own ≡ false
      → listeners own (off ev fn b) ≡ listeners own b
  pub emit_runs :
      {W : Type 0} (run : Listener → W → W) (ev : Transition) (b : Breaker) (w : W)
      → emit run ev b w ≡ run_all run (listeners ev b) w

abbrev pub ListenerPair : Type 0
ListenerPair = Transition × Listener

-- What `wireEvents` keeps of what it added.
abbrev pub pairs : List ListenerPair
pairs =
    (to_open, on_transition to_open)
    ∷ (to_half_open, on_transition to_half_open)
    ∷ (to_close, on_transition to_close)
    ∷ []

module _ (node : Emitter) where
  unfoldable pub wire_events : node.Breaker → node.Breaker × List ListenerPair
  wire_events b = (
    node.on to_close (on_transition to_close) (
        node.on to_half_open (on_transition to_half_open)
          (node.on to_open (on_transition to_open) b)),
    pairs,
  )

  unfoldable pub detach : List ListenerPair → node.Breaker → node.Breaker
  detach [] b = b
  detach ((ev, fn) ∷ listeners) b = detach listeners (node.off ev fn b)

  unfoldable pub dispose : List ListenerPair → node.Breaker → node.Breaker
  unfolding detach
  dispose listeners b = node.shutdown (detach listeners b)

-- What a listener does to the lines of the log, the last one first: the adapter's calls
-- `onTransition`, which `httpClientProvider` makes a call of the logger.
unfoldable pub listen :
    String
    → (ℕ → List TransitionLine → List TransitionLine)
    → Listener
    → List TransitionLine
    → List TransitionLine
unfolding transition_line
listen api other (on_transition t) lines = transition_line api t ∷ lines
listen api other (foreign n) lines = other n lines

run_all-append :
    {W : Type 0} (run : Listener → W → W) (fns : List Listener) (fn : Listener) (w : W)
    → run_all run (fns ++ (fn ∷ [])) w ≡ run fn (run_all run fns w)
unfolding run_all
run_all-append run [] fn w = refl
run_all-append run (own ∷ fns) fn w = run_all-append run fns fn (run own w)

module _ (node : Emitter) (b : node.Breaker) where
  listeners-wire_events :
      (ev : Transition)
      → node.listeners ev (wire_events node b).0 ≡ node.listeners ev b ++ (on_transition ev ∷ [])
  unfolding wire_events
  listeners-wire_events to_open =
      node.on_adds to_close to_open _ _
      ∙ node.on_adds to_half_open to_open _ _
      ∙ node.on_adds to_open to_open (on_transition to_open) b
  listeners-wire_events to_half_open =
      node.on_adds to_close to_half_open _ _
      ∙ node.on_adds to_half_open to_half_open (on_transition to_half_open) _
      ∙ ap (λ fns. fns ++ (on_transition to_half_open ∷ []))
          (node.on_adds to_open to_half_open (on_transition to_open) b)
  listeners-wire_events to_close =
      node.on_adds to_close to_close (on_transition to_close) _
      ∙ ap (λ fns. fns ++ (on_transition to_close ∷ []))
          (node.on_adds to_half_open to_close _ _
            ∙ node.on_adds to_open to_close (on_transition to_open) b)

  listeners-detach :
      (ev : Transition)
      → node.listeners ev (detach node (wire_events node b).1 (wire_events node b).0)
        ≡ node.listeners ev b
  unfolding detach wire_events
  listeners-detach to_open =
      node.off_other to_close to_open _ _ refl
      ∙ node.off_other to_half_open to_open _ _ refl
      ∙ node.off_added to_open (on_transition to_open) _ _ (listeners-wire_events to_open)
  listeners-detach to_half_open =
      node.off_other to_close to_half_open _ _ refl
      ∙ node.off_added to_half_open (on_transition to_half_open) _ _
          (node.off_other to_open to_half_open _ _ refl ∙ listeners-wire_events to_half_open)
  listeners-detach to_close = node.off_added to_close (on_transition to_close) _ _ (
      node.off_other to_half_open to_close _ _ refl
      ∙ node.off_other to_open to_close _ _ refl
      ∙ listeners-wire_events to_close)

  -- Once the adapter listens, each event of the breaker writes one more line than without it, its
  -- own, of the level `info` for a circuit that closes and `warn` for the others; and what
  -- `dispose` shuts down at last is a breaker on which the adapter's listeners are gone and all
  -- others are left, so that an event leaves what it would have without the adapter.
  pub emit-wire_events :
      (api : String) (other : ℕ → List TransitionLine → List TransitionLine) (ev : Transition)
      (lines : List TransitionLine)
      → let wired = wire_events node b in
        let before = node.emit (listen api other) ev b lines in
        (node.emit (listen api other) ev wired.0 lines ≡ transition_line api ev ∷ before)
        × ((d : node.Breaker) × (dispose node wired.1 wired.0 ≡ node.shutdown d)
            × (node.emit (listen api other) ev d lines ≡ before))
  unfolding dispose listen
  emit-wire_events api other ev lines =
      let run = listen api other in
      let before = node.emit_runs run ev b lines in
      (
        node.emit_runs run ev _ lines
            ∙ ap (λ fns. run_all run fns lines) (listeners-wire_events ev)
            ∙ run_all-append run (node.listeners ev b) (on_transition ev) lines
            ∙ ap (run (on_transition ev)) (sym before),
        (
          _,
          refl,
          node.emit_runs run ev _ lines
              ∙ ap (λ fns. run_all run fns lines) (listeners-detach ev)
              ∙ sym before,
        ),
      )
