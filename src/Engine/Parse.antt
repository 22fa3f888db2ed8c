-- ===== src/Engine/Parse.antt =====
-- parser.go, `parseWithContext`, and the context that rule_context.go builds over a slice of lexemes.
pub mod Accept
use syntaxa.Prelude.{
  ℕ, Bool, true, false, not, ◌&&◌, ◌||◌, Option, none, some, List, [], String, length, ◌==◌, ltb,
  if◌then◌else◌, Outcome, ok, panic, Panic, ◌>>=◌,
}
use syntaxa.Tokens.{Lexeme}
use syntaxa.Stream.{TokenStream, peek, push_skip_roles}
use syntaxa.Recovery.{recovery_core_create, push_recovery, pop_recovery}
use syntaxa.Errors.{
  SyntaxErrors, Message, unexpected_start, unexpected_end, lexing, flush_frames_commit_all,
  has_committed_syntax_errors, is_empty,
}
use syntaxa.Lst.Heap.{Pointer, Editor, zero_node}
use syntaxa.Lst.Pool.{begin, set_root, new_pointers}
use syntaxa.Lst.Spans.{compute_spans, freeze}
use syntaxa.Engine.{
  Context, FailureKind, failure_no_match, RuleResult, RuleExecutionMode, execution_normal,
  execution_probe, ParserRule, SyntaxaParser,
}
use syntaxa.Engine.Reports.{report_at, report_lexer_error}
use syntaxa.Engine.Execute.{execute_rule}

abbrev engine_name : String
engine_name = "SYNTAXA ENGINE"

abbrev pub is_no_match : FailureKind → Bool
is_no_match failure_no_match = true
is_no_match FailureKind.unset = false
is_no_match FailureKind.failure_error = false

-- The editor of `buildBaseContext`, with `prefill` nodes in its free list.
abbrev pub editor_create : ℕ → Option (ℕ → ℕ → ℕ) → (Pointer → ℕ) → Editor
editor_create prefill grow cap = record {
  heap = λ p. zero_node 0;
  next_pointer = prefill;
  next_id = 0;
  root = none;
  frozen = false;
  tree_dirty = false;
  created = [];
  node_free = new_pointers prefill 0;
  node_grow = grow;
  cap_node_free = cap;
  in_use = false;
}

unfoldable pub build_exec_rule_context_from_slice :
    SyntaxaParser → List Lexeme → SyntaxErrors → Editor → Context
unfolding push_skip_roles
build_exec_rule_context_from_slice parser lexemes errors editor =
    let bare : TokenStream = record {
      lexemes = lexemes;
      cursor = 0;
      eof_token = parser.eof_token;
      skip_stack = [];
      next_visible_raw_index = 0;
      next_visible_cached = false;
    } in
    record {
      stream =
          if is_empty parser.default_skip_roles
          then bare
          else push_skip_roles parser.default_skip_roles bare;
      recovery = recovery_core_create parser.eof_token;
      errors = errors;
      editor = editor;
    }

unfoldable pub execute_resolved :
    Option ParserRule → RuleExecutionMode → Context → Outcome (RuleResult × Context)
execute_resolved none mode c = panic Panic.unresolved_target
execute_resolved (some rule) execution_probe c = rule.execution_fn c
execute_resolved (some rule) execution_normal c = do
  (result, c') ← rule.execution_fn (record c {
    recovery =
        push_recovery rule.is_recovery_barrier rule.recovery_tokens
          rule.no_consume_on_recovery_tokens c.recovery;
  })
  ok (result, record c' { recovery = pop_recovery c'.recovery })

unfoldable pub execute_reference :
    SyntaxaParser → String → RuleExecutionMode → Context → Outcome (RuleResult × Context)
unfolding execute_resolved
execute_reference parser target mode c = execute_resolved (parser.registry target) mode c

-- The first report of `parseWithContext`.
report_no_start : RuleResult → Context → Context
unfolding report_at
report_no_start result c =
    if not result.succeeded && is_no_match result.kind
    then (let (l, ts) = peek c.stream 0 in
        report_at engine_name l (unexpected_start l.token) (record c { stream = ts }))
    else c

report_lexing : Option String → Context → Context
unfolding report_lexer_error
report_lexing none c = c
report_lexing (some message) c = report_lexer_error (lexing message) c

compute_rooted : Option Pointer → Editor → Outcome Editor
unfolding compute_spans
compute_rooted none e = ok e
compute_rooted (some root) e = compute_spans e

-- The check of what is left after a success: whether the parse still succeeds.
unfoldable pub check_end : SyntaxaParser → Context → Bool × Context
unfolding report_at
check_end parser c =
    let (l, ts) = peek c.stream 0 in
    let c' : Context = record c { stream = ts } in
    if not (l.token == parser.eof_token) && not (has_committed_syntax_errors c'.errors)
    then (false, report_at engine_name l (unexpected_end l.token) c')
    else (true, c')

-- `failed` is the number of errors in the returned error, if one is returned.
pub record Parsed : Type 0 where
  pub node : Option Pointer
  pub failed : Option ℕ

-- What follows the program rule, up to the deferred freeze.
unfoldable pub finish_parse :
    SyntaxaParser → Option String → RuleResult → Context → Outcome (Parsed × Context)
unfolding report_no_start report_lexing compute_rooted check_end set_root flush_frames_commit_all
finish_parse parser lex_error result c = do
  let c1 = report_lexing lex_error (report_no_start result c)
  editor ← compute_rooted result.node (set_root result.node c1.editor)
  let c2 : Context = record c1 { editor = editor }
  let (succeeded, c3) = if result.succeeded then check_end parser c2 else (false, c2)
  let c4 : Context = record c3 { errors = flush_frames_commit_all c3.errors }
  ok (
    record {
      node = result.node;
      failed =
          if not succeeded || not (is_empty c4.errors.errors)
          then some (length c4.errors.errors)
          else none;
    },
    c4,
  )

unfoldable pub freeze_after : Bool → Context → Outcome Context
unfolding freeze
freeze_after false c = ok c
freeze_after true c = do editor ← freeze c.editor; ok (record c { editor = editor })

unfoldable pub parse_with_context :
    SyntaxaParser → Option String → Context → Outcome (Parsed × Context)
unfolding begin finish_parse freeze_after
parse_with_context parser lex_error c = do
  editor ← begin c.editor
  (result, c1) ←
      execute_rule parser parser.program_rule execution_normal (record c { editor = editor })
  (parsed, c2) ← finish_parse parser lex_error result c1
  c3 ← freeze_after parser.freeze_after_parse c2
  ok (parsed, c3)
