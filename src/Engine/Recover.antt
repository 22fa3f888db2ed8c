-- ===== src/Engine/Recover.antt =====
-- parser.go, `performRecovery`: the search for a token at which parsing can go on. Each phase is a loop
-- over the raw lexemes ahead.
pub mod Landing
use syntaxa.Prelude.{ℕ, Bool, true, false, Option, none, some, List, [], ◌∷◌, ◌==◌, if◌then◌else◌}
use syntaxa.Tokens.{TokenKind, Lexeme}
use syntaxa.Stream.{TokenStream, consume_raw, ahead}
use syntaxa.Recovery.{RecoveryCore, is_active_consume_recovery_token, is_active_recovery_token}
use syntaxa.Engine.{Context, ParserRule, is_sync_token}

-- `none` where the phase meets the end, else whether the landing token is one of the rule's own.
abbrev pub Landed : Type 0
Landed = Option Bool × TokenStream

unfoldable pub is_sync : Bool → RecoveryCore → TokenKind → Bool
is_sync consume_only rc t =
    if consume_only then is_active_consume_recovery_token rc t else is_active_recovery_token rc t

-- The loop, over what lies ahead.
unfoldable pub discard_over :
    List Lexeme → TokenKind → RecoveryCore → ParserRule → Bool → TokenStream → Landed
unfolding is_sync
discard_over [] eof rc rule consume_only ts = (none, ts)
discard_over (l ∷ ls) eof rc rule consume_only ts =
    let rest = discard_over ls eof rc rule consume_only (consume_raw ts).1 in
    if l.token == eof
    then (none, ts)
    else if is_sync consume_only rc l.token
    then (some (is_sync_token rule l.token), ts)
    else rest

unfoldable pub perform_recovery_discard_phase :
    TokenKind → RecoveryCore → ParserRule → Bool → TokenStream → Landed
unfolding discard_over
perform_recovery_discard_phase eof rc rule consume_only ts =
    discard_over (ahead ts) eof rc rule consume_only ts

-- What the first phase leaves to do.
second_phase : Landed → TokenKind → RecoveryCore → ParserRule → Landed
unfolding perform_recovery_discard_phase
second_phase (some ours, ts) eof rc rule = (some ours, ts)
second_phase (none, ts) eof rc rule = perform_recovery_discard_phase eof rc rule false ts

unfoldable pub perform_recovery : TokenKind → RecoveryCore → ParserRule → TokenStream → Landed
unfolding second_phase
perform_recovery eof rc rule ts =
    second_phase (perform_recovery_discard_phase eof rc rule true ts) eof rc rule
