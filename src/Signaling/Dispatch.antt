-- ===== src/Signaling/Dispatch.antt =====
-- src/server/signaling/player.cpp, `OnMessage`: which handler a message goes to.
use pong_pp.Common.{ℕ, arith, ◌≡◌, refl, ◌∙◌, ap, true, false, List, [], ◌∷◌, ◌++◌, codes}
use pong_pp.Common.Find.{Without, find, find_here}
use pong_pp.Signaling.State.{Server}
use pong_pp.Signaling.Text.{is_newline, trim_end, keep_front, split_verb}
use pong_pp.Signaling.Text.Codes.{trim_end-newline, trim_end-behind, split_verb_lem}
use pong_pp.Signaling.Verb
use pong_pp.Signaling.Player.{dispatch, on_message, handle_create, handle_join, handle_relay}

-- A line end behind a message changes nothing of what the server does with it.
pub on_message-newline :
    (p : ℕ) (msg : List ℕ) (c : ℕ) (s : Server)
    → is_newline c ≡ true
    → on_message p (msg ++ c ∷ []) s ≡ on_message p msg s
unfolding on_message
on_message-newline p msg c s h = ap (λ m. dispatch p (split_verb m) s) (trim_end-newline msg c h)

-- A verb, a space and a body.
pub on_message-parts :
    (p : ℕ) (v body : List ℕ) (s : Server)
    → Without b' ' v
    → on_message p (v ++ (b' ' ∷ body)) s ≡ dispatch p (v, trim_end body) s
unfolding on_message
on_message-parts p v body s w =
    rw (on_message, trim_end-behind v body 32 space, split_verb_lem v (trim_end body) w) refl
  where
    space : is_newline 32 ≡ false
    space = unfold is_newline in refl

relay_plain : Without b' ' Verb.relay
relay_plain = omega arith

join_plain : Without b' ' Verb.join
join_plain = omega arith

dispatch-relay :
    (p : ℕ) (body : List ℕ) (s : Server) → dispatch p (Verb.relay, body) s ≡ handle_relay p body s
unfolding dispatch
dispatch-relay p body s = refl

dispatch-join :
    (p : ℕ) (body : List ℕ) (s : Server) → dispatch p (Verb.join, body) s ≡ handle_join p body s
unfolding dispatch
dispatch-join p body s = refl

pub on_message-relay :
    (p : ℕ) (body : List ℕ) (s : Server)
    → on_message p (Verb.relay ++ codes " " ++ body) s ≡ handle_relay p (trim_end body) s
on_message-relay p body s =
    on_message-parts p Verb.relay body s relay_plain ∙ dispatch-relay p (trim_end body) s

pub on_message-join :
    (p : ℕ) (body : List ℕ) (s : Server)
    → on_message p (Verb.join ++ codes " " ++ body) s ≡ handle_join p (trim_end body) s
on_message-join p body s =
    on_message-parts p Verb.join body s join_plain ∙ dispatch-join p (trim_end body) s

pub on_message-create : (p : ℕ) (s : Server) → on_message p Verb.create s ≡ handle_create p s
unfolding on_message dispatch trim_end keep_front is_newline split_verb find find_here
on_message-create p s = refl
