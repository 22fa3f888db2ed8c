-- ===== src/Lib.antt =====
-- Verification library of Syntaxa's parsing engine.
--
-- The engine runs rules over a stream of lexemes. A rule's body is a function on a context; the engine
-- wraps every run of a body in an envelope, which takes a snapshot of the stream, opens a frame in the
-- error sink and, in normal mode, a recovery scope, and undoes, commits or recovers according to the
-- body's result. Bodies create nodes of the syntax tree through an editor, whose ledger lets the engine
-- take back the nodes of a failed rule.
--
-- Parts and files, with the code that they model:
--   Tokens        lexeme.go: the lexeme.
--   Errors        syntax_errors.go: the error sink. Frames, Transactions: what work inside a frame leaves
--                 alone; Best: which error a frame keeps; Flush: the end of a parse.
--   Stream        rule_context.go, tokenStream, skipCore and the slice source. Visible: the abstract view,
--                 the list of visible lexemes; Peek, Consume, Coherence: the operations against it.
--   Recovery      rule_context.go, recoveryCore. Scopes: refinement of a stack of scopes; Queries.
--   Lst           ast_node.go, the node record, and ast_editor.go. Heap: one node; Pool: creation, reuse
--                 and the ledger; Structure: links; Spans: byte spans, freezing, the cache of line spans;
--                 Flatten: FlattenByKind and its meaning.
--   Engine        rule.go and parser.go. Reports: rule_context.go, errorCore; Recover: performRecovery;
--                 Execute: syntaxaParserExecuteRule and handleFailureState; Parse: parseWithContext, and
--                 the context that rule_context.go builds over a slice.
--   Rules         rule/factory.go. Terminals: single tokens and the token list; Wrappers: rules around one
--                 other; Sequences, Repeats, Nests, Choices: rules over others. Work: the calls of a body
--                 as work within a frame; the modules Contained: each body as such work; Built: the rules
--                 that the builder can assemble, without Pratt rules and cycles of references; Ends, Accepts,
--                 Advancing, Equivalence: their loops.
--   Package       grammar_package.go, the merge of recovery tokens. Rounds: its loop; Reach, Explored,
--                 Distinct, Exact: its result against the rules that a label reaches; Bound: with the
--                 binding of parser.go.
--   Guards        lookahead_guard.go.
--   Dispatch      choice_dispatch.go.
--   Lowering      lowering/lookahead.go. Lookaheads: guards as sorted slices; Canonical: their meaning.
-- Definitions carry the names of the Go functions in snake case; a function that is split into several
-- definitions says so at each part. Every part has a module Tests with runs on concrete inputs.
--
-- Conventions. Node kinds, token kinds, roles and attribute values, over which the code is generic or
-- which it only compares, are natural numbers, and so are the offsets of lookaheads. Pointers index a
-- heap of nodes, with `next_pointer` above all allocated ones. A slice used as a stack is a list whose
-- head is the top; other slices keep their order. A pair of a value and a flag is an option. Panics are
-- values of Outcome. Counters of type uint64 wrap at 2 ^ 64. Lists stand for maps and sets where the code
-- ranges over them, in whatever order that may be, functions where it only looks up. What the Go runtime
-- chooses as the capacity of the pool's free list, and the pool's growth function, are parameters. A
-- post-processor is a parameter too: a function on the editor.
--
-- Loops and fuel. Loops over raw lexemes recurse on the lexemes ahead of the cursor. The loop up the
-- parents of a node and the recursion down the tree take as fuel one more than the number of allocated
-- nodes, which bounds every path without a cycle; the panic `diverged` stands for a run that does not end.
-- The loop of the token list takes as many rounds as raw lexemes lie ahead, and one; a repetition takes
-- its number of rounds as a parameter; the merge of recovery tokens takes one round more than there are
-- rules, since no round visits a label twice; the flattening of a tree takes its rounds as a parameter, of
-- which one for each node that it visits, and one, are enough. All return none where the rounds run out.
--
-- Not modelled: traces and statistics, which nothing reads; the context over a live lexer session, which
-- is the external lexer's; the grammar that a rule carries, of which the rules here are given what the
-- engine reads, with the builder's registry; the Pratt parser, the grammar tree and the making of a
-- package from it, its analysis, the rest of the lowering, the walks and the other searches over the
-- tree, cloning, and the debuggers.
mod Prelude
pub mod Tokens
pub mod Errors
pub mod Stream
pub mod Package
pub mod Recovery
pub mod Lst
pub mod Engine
pub mod Guards
pub mod Dispatch
pub mod Lowering
pub mod Rules
