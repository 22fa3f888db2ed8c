-- ===== src/Engine/Reports.antt =====
-- rule_context.go, `errorCore`: how diagnostics are made from lexemes.
use syntaxa.Prelude.{true, false, ℕ, String}
use syntaxa.Tokens.{Lexeme}
use syntaxa.Stream.{peek}
use syntaxa.Errors.{SyntaxError, Message, report, replace_best}
use syntaxa.Engine.{Context}

abbrev pub error_at : String → Message → (start end token_number : ℕ) → SyntaxError
error_at rule message start end token_number = record {
  produced_by_lexer = false;
  rule = rule;
  message = message;
  absolute_position = start;
  absolute_end = end;
  token_number = token_number;
}

abbrev pub report_in_context : SyntaxError → Context → Context
report_in_context e c = record c { errors = report c.errors e }

unfoldable pub report_at : String → Lexeme → Message → Context → Context
report_at rule l message = report_in_context (error_at rule message l.start l.end l.token_number)

unfoldable pub report_at_end : String → Lexeme → Message → Context → Context
report_at_end rule l message = report_in_context (error_at rule message l.end l.end l.token_number)

unfoldable pub report_here : String → Message → Context → Context
unfolding report_at
report_here rule message c =
    let (l, ts) = peek c.stream 0 in report_at rule l message (record c { stream = ts })

unfoldable pub report_lexer_error : Message → Context → Context
report_lexer_error message = report_in_context (record {
  produced_by_lexer = true;
  rule = "";
  message = message;
  absolute_position = 0;
  absolute_end = 0;
  token_number = 0;
})

unfoldable pub replace_best_error_at : String → Lexeme → Message → Context → Context
replace_best_error_at rule l message c = record c {
  errors = (replace_best c.errors (error_at rule message l.start l.end l.token_number)).0;
}
