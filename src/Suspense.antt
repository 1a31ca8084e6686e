-- ===== src/Suspense.antt =====
-- suspense.go: the goroutines of one render that has asynchronous components, as a step relation. A
-- worker is its payload of type `P`; it renders, then sends on the channel, and ends. The writer
-- serves the channel, then drains it and closes it. The main goroutine submits, and closes; the client
-- may go away at any moment.
pub mod Safety
pub mod Delivery
pub mod Progress
pub mod Deadlock
use nanite_render.Prelude.{
  ℕ, ◌+◌, ◌*◌, ◌<◌, ◌≡◌, ◌≢◌, ◌⊎◌, Bool, true, false, List, [], ◌∷◌, ◌++◌, length, Option, none,
  some, Bytes, codes,
}
use nanite_render.Writer.{Error}
use nanite_render.Escape.{escape_string}

pub record Payload : Type 0 where
  pub id : Bytes
  pub buf : Bytes
  pub err : Option Error

-- how the goroutine that renders ends, and how a boundary does after its panic
pub data RenderEnd : Type 0 where
  returned : Bytes → Option Error → RenderEnd
  panicked : RenderEnd

pub data BoundaryEnd : Type 0 where
  completed : Bytes → BoundaryEnd
  failed : BoundaryEnd

-- What a worker whose render has ended sends.
unfoldable pub run_worker : Bytes → Option BoundaryEnd → RenderEnd → Option Payload
run_worker id boundary (returned buf err) = some (record { id = id; buf = buf; err = err })
run_worker id none panicked = none
run_worker id (some (completed buf)) panicked = some (record { id = id; buf = buf; err = none })
run_worker id (some failed) panicked =
    some (record { id = id; buf = codes "<!-- error boundary failed -->"; err = none })

-- The bytes that the writer sends for a payload, where its writes succeed.
unfoldable pub write_payload : Payload → Bytes
write_payload p = elim p.err [
  | some e ↦ []
  | none ↦
      codes "<div id=\""
      ++ (escape_string p.id ++ (codes "\" hx-swap-oob=\"true\">" ++ (p.buf ++ codes "</div>")))
]

-- The response's bytes for payloads one after another.
unfoldable pub response : List Payload → Bytes
response [] = []
response (p ∷ ps) = write_payload p ++ response ps

-- Where `runWriter` is: in its loop, in drain before the workers are awaited or the client is gone,
-- in drain's loop behind that, or behind the closing of the channel.
pub data Phase : Type 0 where
  serving : Phase
  waiting : Phase
  draining : Phase
  exited : Phase

-- `make(chan *suspensePayload, 8)`
abbrev pub channel_cap : ℕ
channel_cap = 8

-- `closing` is a closed `done`, `cancelled` an ended context, `crashed` the panic of a send on the
-- closed channel. `out` are the payloads that writePayload was called for, and `dropped` those of workers
-- that end without a send.
pub record Coordinator (P : Type 0) : Type 0 where
  pub rendering : List P
  pub sending : List P
  pub queue : List P
  pub out : List P
  pub dropped : List P
  pub phase : Phase
  pub closing : Bool
  pub cancelled : Bool
  pub crashed : Bool

-- EnsureSuspense
abbrev pub started : {P : Type 0} → Coordinator P
started = record {
  rendering = [];
  sending = [];
  queue = [];
  out = [];
  dropped = [];
  phase = serving;
  closing = false;
  cancelled = false;
  crashed = false;
}

module _ {P : Type 0} where
  -- the worker at a place of a list is gone from it
  abbrev pub Taken : P → List P → List P → Type 0
  Taken p ps rest = (xs : List P) × (ys : List P) × (ps ≡ xs ++ p ∷ ys) × (rest ≡ xs ++ ys)

  -- One step of a worker or of the writer.
  pub data Work (s t : Coordinator P) : Type 0 where
    -- the render returns, or its boundary does
    finish :
        (p : P) (rest : List P)
        → Taken p s.rendering rest
        → t ≡ record s { rendering = rest; sending = p ∷ s.sending }
        → Work s t
    -- a panic without a boundary
    abandon :
        (p : P) (rest : List P)
        → Taken p s.rendering rest
        → t ≡ record s { rendering = rest; dropped = p ∷ s.dropped }
        → Work s t
    -- `case <-c.ctx.Done()` of runWorker
    abort :
        (p : P) (rest : List P)
        → s.cancelled ≡ true
        → Taken p s.rendering rest
        → t ≡ record s { rendering = rest; dropped = p ∷ s.dropped }
        → Work s t
    -- `c.ch <- payload`, and the end of the worker
    send :
        (p : P) (rest : List P)
        → Taken p s.sending rest
        → s.phase ≢ exited
        → length s.queue < channel_cap
        → t ≡ record s { sending = rest; queue = s.queue ++ p ∷ [] }
        → Work s t
    send_on_closed :
        (p : P) (rest : List P)
        → Taken p s.sending rest
        → s.phase ≡ exited
        → t ≡ record s { crashed = true }
        → Work s t
    -- `case p, ok := <-c.ch` of runWriter
    receive :
        (p : P) (rest : List P)
        → s.phase ≡ serving
        → s.queue ≡ p ∷ rest
        → t ≡ record s { queue = rest; out = s.out ++ p ∷ [] }
        → Work s t
    -- `case <-c.done` and `case <-c.ctx.Done()` of runWriter
    begin_drain :
        s.phase ≡ serving
        → (s.closing ≡ true) ⊎ (s.cancelled ≡ true)
        → t ≡ record s { phase = waiting }
        → Work s t
    -- the first select of drain
    end_wait :
        s.phase ≡ waiting
        → ((s.rendering ≡ []) × (s.sending ≡ [])) ⊎ (s.cancelled ≡ true)
        → t ≡ record s { phase = draining }
        → Work s t
    -- drain's loop
    pull :
        (p : P) (rest : List P)
        → s.phase ≡ draining
        → s.queue ≡ p ∷ rest
        → t ≡ record s { queue = rest; out = s.out ++ p ∷ [] }
        → Work s t
    close_channel : s.phase ≡ draining → s.queue ≡ [] → t ≡ record s { phase = exited } → Work s t

  -- What the main goroutine and the client do.
  pub data Step (s t : Coordinator P) : Type 0 where
    work : Work s t → Step s t
    submit :
        (p : P)
        → s.closing ≡ false
        → s.cancelled ≡ false
        → t ≡ record s { rendering = p ∷ s.rendering }
        → Step s t
    close : t ≡ record s { closing = true } → Step s t
    cancel : t ≡ record s { cancelled = true } → Step s t

  pub data Reach (s : Coordinator P) : Coordinator P → Type 0 where
    here : Reach s s
    later : {t u : Coordinator P} → Reach s t → Step t u → Reach s u
