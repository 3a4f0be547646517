-- ===== src/Chat/Sent.antt =====
-- What the client of a chat stream has been sent: the text and the arguments of each tool call, put
-- together from the chunks (internal/server/chat.go).
use mathlib.Core.Option
use codex_sub_proxy.Prelude.{
  ℕ, zero, suc, ◌≡◌, refl, sym, ap, ◌∙◌, List, [], ◌∷◌, ◌++◌, Bool, true, false, ◌==◌, length,
  get_elem?, Option, none, some, Result, ok, err, arith, if◌then◌else◌,
}
use codex_sub_proxy.Prelude.Bytes.{Bytes, append_assoc, append_nil}
use codex_sub_proxy.Chat.Types.{ChatError}
use codex_sub_proxy.Chat.Stream.{
  Delta, role_delta, content, tool_head, tool_arguments, finished, Chunk, Tool, Stream, M,
  continue_with, set_at, fail_when, found_tool, with_tool,
}

abbrev pub delta_text : Delta → Bytes
delta_text (content t) = t
delta_text role_delta = []
delta_text (tool_head i id name) = []
delta_text (tool_arguments i a) = []
delta_text (finished r) = []

abbrev pub delta_arguments : ℕ → Delta → Bytes
delta_arguments i (tool_arguments j a) = if i == j then a else []
delta_arguments i (content t) = []
delta_arguments i role_delta = []
delta_arguments i (tool_head j id name) = []
delta_arguments i (finished r) = []

-- The text of all chunks.
unfoldable pub sent_text : List Chunk → Bytes
sent_text [] = []
sent_text (c ∷ cs) = delta_text c.delta ++ sent_text cs

-- The arguments of all chunks for the tool of an index.
unfoldable pub sent_arguments : ℕ → List Chunk → Bytes
sent_arguments i [] = []
sent_arguments i (c ∷ cs) = delta_arguments i c.delta ++ sent_arguments i cs

pub sent_text-snoc :
    (cs : List Chunk) (c : Chunk) → sent_text (cs ++ c ∷ []) ≡ sent_text cs ++ delta_text c.delta
unfolding sent_text
sent_text-snoc [] c = append_nil (delta_text c.delta)
sent_text-snoc (d ∷ cs) c =
    ap (λ t. delta_text d.delta ++ t) (sent_text-snoc cs c)
    ∙ sym (append_assoc (delta_text d.delta) (sent_text cs) (delta_text c.delta))

pub sent_arguments-snoc :
    (i : ℕ) (cs : List Chunk) (c : Chunk)
    → sent_arguments i (cs ++ c ∷ []) ≡ sent_arguments i cs ++ delta_arguments i c.delta
unfolding sent_arguments
sent_arguments-snoc i [] c = append_nil (delta_arguments i c.delta)
sent_arguments-snoc i (d ∷ cs) c =
    ap (λ t. delta_arguments i d.delta ++ t) (sent_arguments-snoc i cs c)
    ∙ sym
        (append_assoc (delta_arguments i d.delta) (sent_arguments i cs) (delta_arguments i c.delta))

pub get_elem?-set_at :
    (i j : ℕ) (g : Tool → Tool) (ts : List Tool)
    → get_elem? (set_at i g ts) j
      ≡ (if j == i then Option.map g (get_elem? ts i) else get_elem? ts j)
unfolding set_at
get_elem?-set_at i j g [] = ground arith
get_elem?-set_at zero zero g (t ∷ ts) = refl
get_elem?-set_at zero (suc j) g (t ∷ ts) = ground arith
get_elem?-set_at (suc i) zero g (t ∷ ts) = ground arith
get_elem?-set_at (suc i) (suc j) g (t ∷ ts) = ground (arith, get_elem?-set_at i j g ts)

pub get_elem?-snoc :
    (ts : List Tool) (u : Tool) (j : ℕ)
    → get_elem? (ts ++ u ∷ []) j ≡ (if j == length ts then some u else get_elem? ts j)
get_elem?-snoc [] u zero = refl
get_elem?-snoc [] u (suc j) = ground arith
get_elem?-snoc (t ∷ ts) u zero = ground arith
get_elem?-snoc (t ∷ ts) u (suc j) = ground (arith, get_elem?-snoc ts u j)

pub get_elem?-length : (ts : List Tool) → get_elem? ts (length ts) ≡ none
get_elem?-length [] = refl
get_elem?-length (t ∷ ts) = get_elem?-length ts

-- What holds of the value and the state that a method gives when it succeeds.
abbrev pub Ensures : {A : Type 0} → (A → Stream → Type 0) → Result ChatError A × Stream → Type 0
Ensures Q (ok a, s) = Q a s
Ensures Q (err e, s) = Unit

-- The rule for two methods in a row.
pub then_Ensures :
    {A B : Type 0} (Q : A → Stream → Type 0) (R : B → Stream → Type 0)
    (r : Result ChatError A × Stream) (k : A → M B)
    → Ensures Q r
    → ((a : A) (s : Stream) → Q a s → Ensures R (k a s))
    → Ensures R (continue_with r k)
then_Ensures Q R (ok a, s) k h next = next a s h
then_Ensures Q R (err e, s) k h next = tt

-- The rules for the other ways to put methods together.
pub if_Ensures :
    {A : Type 0} (Q : A → Stream → Type 0) (b : Bool) (m k : M A) (s : Stream)
    → (b ≡ true → Ensures Q (m s))
    → (b ≡ false → Ensures Q (k s))
    → Ensures Q ((if b then m else k) s)
if_Ensures Q true m k s yes_case no_case = yes_case refl
if_Ensures Q false m k s yes_case no_case = no_case refl

pub option_Ensures :
    {A B : Type 0} (Q : A → Stream → Type 0) (o : Option B) (g : B → M A) (k : M A) (s : Stream)
    → ((b : B) → Ensures Q (g b s))
    → Ensures Q (k s)
    → Ensures Q ((elim o as (λ _. M A) [ some b ↦ g b | none ↦ k ]) s)
option_Ensures Q none g k s given_one without = without
option_Ensures Q (some b) g k s given_one without = given_one b

pub fail_when-Ensures :
    (Q : Unit {0} → Stream → Type 0) (b : Bool) (e : ChatError) (s : Stream)
    → (b ≡ false → Q tt s)
    → Ensures Q (fail_when b e s)
fail_when-Ensures Q true e s h = tt
fail_when-Ensures Q false e s h = h refl

pub lift_Ensures :
    {A : Type 0} (Q : A → Stream → Type 0) (r : Result ChatError A) (s : Stream)
    → ((a : A) → r ≡ ok a → Q a s)
    → Ensures Q (r, s)
lift_Ensures Q (ok a) s h = h a refl
lift_Ensures Q (err e) s h = tt

found_tool-Ensures :
    {A : Type 0} (Q : A → Stream → Type 0) (o : Option Tool) (g : Tool → M A) (s : Stream)
    → ((t : Tool) → o ≡ some t → Ensures Q (g t s))
    → Ensures Q (found_tool o g s)
found_tool-Ensures Q none g s h = tt
found_tool-Ensures Q (some t) g s h = h t refl

pub with_tool-Ensures :
    {A : Type 0} (Q : A → Stream → Type 0) (i : ℕ) (g : Tool → M A) (s : Stream)
    → ((t : Tool) → get_elem? s.tools i ≡ some t → Ensures Q (g t s))
    → Ensures Q (with_tool i g s)
with_tool-Ensures Q i g s h = found_tool-Ensures Q (get_elem? s.tools i) g s h

pub guard_Ensures :
    {A : Type 0} (Q : A → Stream → Type 0) (b : Bool) (e : ChatError) (k : M A) (s : Stream)
    → (b ≡ false → Ensures Q (k s))
    → Ensures Q (continue_with (fail_when b e s) (λ _. k))
guard_Ensures Q true e k s next = tt
guard_Ensures Q false e k s next = next refl
