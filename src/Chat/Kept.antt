-- ===== src/Chat/Kept.antt =====
-- The rules for methods of a chat stream that keep its invariant (internal/server/chat.go).
use codex_sub_proxy.Prelude.{sym, subst, Bool, true, false, Result, ok, err, if◌then◌else◌}
use codex_sub_proxy.Prelude.Bytes.{Bytes}
use codex_sub_proxy.Chat.Types.{ChatError}
use codex_sub_proxy.Chat.Stream.{Stream, M, ◌>>=◌, done, fail_when, lift}
use codex_sub_proxy.Chat.Event.{or_abort, or_note, aborting, noting}
use codex_sub_proxy.Chat.Sent.{Ensures, then_Ensures, fail_when-Ensures, lift_Ensures}
use codex_sub_proxy.Chat.Streamed.{Streamed}

-- The invariant with the state's own text.
abbrev pub Good : Stream → Type 0
Good s = Streamed s.text s

pub Streamed-Good : (x : Bytes) (s : Stream) → Streamed x s → Good s
Streamed-Good x s h = subst (λ t. Streamed t s) (sym h.text_is) h

pub weaken_Ensures :
    {A : Type 0} (Q R : A → Stream → Type 0) (r : Result ChatError A × Stream)
    → ((a : A) (s : Stream) → Q a s → R a s)
    → Ensures Q r
    → Ensures R r
weaken_Ensures Q R (ok a, s) step h = step a s h
weaken_Ensures Q R (err e, s) step h = tt

pub aborting-Ensures :
    {A : Type 0} (Q : A → Stream → Type 0) (r : Result ChatError A × Stream)
    → Ensures Q r
    → Ensures Q (aborting r)
aborting-Ensures Q (ok a, s) h = h
aborting-Ensures Q (err e, s) h = tt

pub noting-Ensures :
    {A : Type 0} (Q : A → Stream → Type 0) (r : Result ChatError A × Stream)
    → Ensures Q r
    → Ensures Q (noting r)
noting-Ensures Q (ok a, s) h = h
noting-Ensures Q (err e, s) h = tt

-- A method that keeps the invariant.
abbrev pub Keeps : {A : Type 0} → M A → Type 0
Keeps m = (s : Stream) → Good s → Ensures (λ _. Good) (m s)

pub then_Keeps :
    {A B : Type 0} (m : M A) (k : A → M B) → Keeps m → ((a : A) → Keeps (k a)) → Keeps (m >>= k)
then_Keeps m k first next s h = then_Ensures (λ _. Good) (λ _. Good) (m s) k (first s h) next

pub abort_Keeps : {A : Type 0} (m : M A) → Keeps m → Keeps (or_abort m)
abort_Keeps m keeps s h = aborting-Ensures (λ _. Good) (m s) (keeps s h)

pub note_Keeps : {A : Type 0} (m : M A) → Keeps m → Keeps (or_note m)
note_Keeps m keeps s h = noting-Ensures (λ _. Good) (m s) (keeps s h)

pub done-Keeps : Keeps done
done-Keeps s h = h

pub lift-Keeps : {A : Type 0} (r : Result ChatError A) → Keeps (lift r)
lift-Keeps r s h = lift_Ensures (λ _. Good) r s (λ _ _. h)

pub fail_when-Keeps : (b : Bool) (e : ChatError) → Keeps (fail_when b e)
fail_when-Keeps b e s h = fail_when-Ensures (λ _. Good) b e s (λ _. h)

pub if_Keeps : {A : Type 0} (b : Bool) (m k : M A) → Keeps m → Keeps k → Keeps (if b then m else k)
if_Keeps true m k a b s h = a s h
if_Keeps false m k a b s h = b s h

-- A method that keeps it with a text that depends on the state.
pub kept :
    {A : Type 0} (m : M A) (text_after : Stream → Bytes)
    → ((s : Stream) → Good s → Ensures (λ _. Streamed (text_after s)) (m s))
    → Keeps m
kept m text_after keeps s h =
    weaken_Ensures (λ _. Streamed (text_after s)) (λ _. Good) (m s)
      (λ _. Streamed-Good (text_after s)) (keeps s h)

-- Two properties at once.
pub both_Ensures :
    {A : Type 0} (Q R : A → Stream → Type 0) (r : Result ChatError A × Stream)
    → Ensures Q r
    → Ensures R r
    → Ensures (λ a s. Q a s × R a s) r
both_Ensures Q R (ok a, s) q r = (q, r)
both_Ensures Q R (err e, s) q r = tt
