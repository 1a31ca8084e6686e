-- ===== src/Lib.antt =====
-- A model of nanite-render, a Go library that parses HTML templates into a flat node stream, compiles
-- them to bytecode and renders them through pooled byte writers, and the theorems about it.
--
-- The parts, the source they model, and how they interact:
--
-- - NodeStream (soa.go). `NodeStream` is the structure of arrays, one list for each slice; a node is
--   an index. The readers (`text`, `num_attr`, `attr_key`, …) and the operations of
--   `NodeStreamBuilder` (NodeStream.Builder: `append_node`, `set_parent`, `set_attrs_each`,
--   `append_text`, `finalize_children`, …) return an `Option`, in which `none` is Go's index panic.
--   WellFormed is the invariant of a builder, Links the meaning of the first-child and
--   next-sibling links.
-- - ParseHtml (parse_html.go, and `ParseError` of errors.go). The parser fills a builder. Its loops
--   are functions on the bytes that are left; Scan holds the byte tests and the scans of the
--   standard library. The fuel of each loop is one more than the bytes left: every round reads one.
--   An index behind the end of the source is the outcome `panic`; CutOff says which sources can
--   lead there.
-- - Writer (writer.go). `ByteWriter` is the interface, as a record of operations on a state, and
--   `WriterLaws` what an implementation promises; `Fails` is empty for a writer without errors.
--   Buffered is `byteWriter`, PerFlush `perFlushWriter`. History is a sequence of calls. The
--   pool is not modelled: `acquire` is given the instance that the pool would hand out.
-- - Escape (escapeAppend of bytecode.go, escapeBytes of execute.go). They are shared by both
--   executors.
-- - Execute (execute.go, `bufferByteWriter` of suspense.go). The tree executor, for any `ByteWriter`;
--   the dispatch of a component is a parameter. Spec is the text of a template, an independent
--   function from nodes to bytes. The fuel of `Execute` is twice the number of nodes and two: links
--   lead to higher indices only, so that no chain of calls is longer.
-- - Bytecode (bytecode.go). The compiler, the packing of an instruction (Inst) and the executor (Run),
--   which runs on any `ByteWriter`; `bcVM.dispatch` is a parameter. The executor's fuel is the
--   number of instructions.
-- - Context (the context stack of context.go), FormErrors (formerrors.go), Assets (assets.go) and Head
--   (head.go): stores with an inline array and a heap slice behind it, against plain lists where they
--   have laws. RenderContext (context.go) is the whole record with its life between the pool and a
--   request, and the maps of functions and headers; it is given the instance that the pool would hand out.
-- - State (state.go): the values that the components of a render share, by key.
-- - Cache (cache.go). The table of slots with its probe loops, each method run alone: interleavings
--   of the methods are left out. Reach says which slots a loop passes; a loop visits each slot once at
--   most, and the capacity is its fuel.
-- - Programs (loadPart of render.go): on the model of the cache; engines and loaders are parameters.
--   Variants (variantKey and variantName of render.go) is on a map in the order of its iteration.
-- - Htmx (htmx.go): the trigger sets and the header they become, and the fields of a context that
--   hold HTMX decisions (Htmx.Response). A Go map is an association list in the order of its
--   iteration.
-- - Actions (actions.go, ActionURL of fluent.go): the paths of actions, the guard against foreign
--   origins and the handler (Actions.Handler). The actions themselves, RenderComponent and the
--   parsing of a body are parameters. The headers are read from the context that has been released to
--   the pool; what other requests do with it in between is the parameter `meanwhile`.
-- - Suspense (suspense.go): the render, its workers and the writer as a step relation on the counts and
--   the channel. What a worker sends is a function; renders are parameters.
-- - Preload (preload.go): the hints of a registry. The compare-and-swap makes each call one step.
-- - Components (component.go): the registry, how a component is rendered with its functions and its
--   children, and the memo. A component is a record of the interfaces that it has.
-- - Page (page.go): the view's pass and the layout's, and what the first leaves for the second.
--   Registry.Render is a parameter, and no other request runs meanwhile.
-- - Conditional (conditional.go, with the fields of `Program` that it reads). SHA-256 is the parameter
--   `digest`; the outcome of `CheckConditional` is the answer,
--   the program with its tag, the headers it writes and those it sets on the request.
-- - Prelude: the library's names and the shared lemmas on lists, texts, words and bits. Tests: runs of
--   the models, and every result at a concrete input.
--
-- A byte is a natural number, a string a list of bytes, and Go's `int` counters are natural numbers
-- without a bound. `uint32` and `int32` conversions are written
-- out with their wrap-around; results that need a bound on a length or a count state it. An `io.Writer`
-- and an `http.Flusher` are the parameter `Out` of Writer.Buffered, with `OutLaws` as what their
-- documentation promises: without an error, all bytes are written. The capacity that Go's `append`
-- picks is the parameter `grow`. The count beside an error that the write methods return is left out,
-- since no caller uses it, and so are capacities of builder slices, which are never observed.
--
-- Not modelled: fluent.go beyond ActionURL; the Registry of render.go beyond loadPart and variants, and
-- its options; the reflection of props.go; files, timers, compression and minifiers; the adapters under
-- engine and nano.
pub mod Prelude
pub mod Writer
pub mod Escape
pub mod NodeStream
pub mod ParseHtml
pub mod Bytecode
pub mod Execute
pub mod Context
pub mod FormErrors
pub mod Conditional
pub mod Assets
pub mod State
pub mod Cache
pub mod Htmx
pub mod Actions
pub mod Suspense
pub mod Head
pub mod Preload
pub mod RenderContext
pub mod Components
pub mod Page
pub mod Variants
pub mod Programs
pub mod Tests
