-- ===== src/Chat/Heads.antt =====
-- The heads of tool calls that the client of a chat stream has been sent, next to the tool calls of a
-- completion (internal/server/chat.go).
use mathlib.Core.Option
use codex_sub_proxy.Prelude.{
  ℕ, ◌≡◌, refl, sym, ap, ◌∙◌, List, [], ◌∷◌, ◌++◌, ◌==◌, get_elem?, Option, none, some,
  if◌then◌else◌, Bool-cases, inl, inr,
}
use codex_sub_proxy.Prelude.Bytes.{Bytes}
use codex_sub_proxy.Chat.Stream.{
  Delta, role_delta, content, tool_head, tool_arguments, finished, Chunk, Tool, Stream, set_at,
  alias_of,
}
use codex_sub_proxy.Chat.Output.{ToolCall}
use codex_sub_proxy.Chat.Tools.{set_here, set_there}

abbrev pub delta_head : ℕ → Delta → List (Bytes × Bytes)
delta_head i (tool_head j id name) = if i == j then (id, name) ∷ [] else []
delta_head i role_delta = []
delta_head i (content t) = []
delta_head i (tool_arguments j a) = []
delta_head i (finished r) = []

-- The ids and names that the chunks announce for the tool of an index.
unfoldable pub sent_heads : ℕ → List Chunk → List (Bytes × Bytes)
sent_heads i [] = []
sent_heads i (c ∷ cs) = delta_head i c.delta ++ sent_heads i cs

-- The head that a tool should have been announced with.
abbrev pub heads_due : Option Tool → List (Bytes × Bytes)
heads_due none = []
heads_due (some t) = if t.metadata_sent then (t.id, t.name) ∷ [] else []

-- The head and the arguments of a tool call of a completion, or nothing.
abbrev pub call_head : Option ToolCall → List (Bytes × Bytes)
call_head none = []
call_head (some call) = (call.id, call.name) ∷ []

abbrev pub call_arguments : Option ToolCall → Bytes
call_arguments none = []
call_arguments (some call) = call.arguments

-- No two calls have the same id.
abbrev pub DistinctIds : List ToolCall → Type 0
DistinctIds calls =
    (j k : ℕ) (a b : ToolCall)
    → get_elem? calls j ≡ some a
    → get_elem? calls k ≡ some b
    → a.id ≡ b.id
    → j ≡ k

-- The tools of a stream are the first calls of a list, in their order and with their ids and names;
-- the heads that have been sent are theirs, one each; and the id of no later call has been seen.
pub record Foreseen (calls : List ToolCall) (s : Stream) : Type 0 where
  pub heads : (i : ℕ) → sent_heads i s.chunks ≡ heads_due (get_elem? s.tools i)
  pub named :
      (i : ℕ) (t : Tool)
      → get_elem? s.tools i ≡ some t
      → (call : ToolCall) × (get_elem? calls i ≡ some call)
        × (t.id ≡ call.id)
        × (t.name ≡ call.name)
  pub fresh :
      (k : ℕ) (call : ToolCall)
      → get_elem? calls k ≡ some call
      → get_elem? s.tools k ≡ none
      → alias_of call.id s.aliases ≡ none

pub nothing_more : {A : Type 0} (xs : List A) → xs ++ [] ≡ xs
nothing_more [] = refl
nothing_more (x ∷ xs) = ap (λ t. x ∷ t) (nothing_more xs)

joined : {A : Type 0} (xs ys zs : List A) → (xs ++ ys) ++ zs ≡ xs ++ (ys ++ zs)
joined [] ys zs = refl
joined (x ∷ xs) ys zs = ap (λ t. x ∷ t) (joined xs ys zs)

pub sent_heads-snoc :
    (i : ℕ) (cs : List Chunk) (c : Chunk)
    → sent_heads i (cs ++ c ∷ []) ≡ sent_heads i cs ++ delta_head i c.delta
unfolding sent_heads
sent_heads-snoc i [] c = nothing_more (delta_head i c.delta)
sent_heads-snoc i (d ∷ cs) c =
    ap (λ t. delta_head i d.delta ++ t) (sent_heads-snoc i cs c)
    ∙ sym (joined (delta_head i d.delta) (sent_heads i cs) (delta_head i c.delta))

-- A change that keeps the id and the name of a tool.
abbrev pub Plain : (Tool → Tool) → Type 0
Plain g = (t : Tool) → ((g t).id ≡ t.id) × ((g t).name ≡ t.name)

abbrev pub KeepsMark : (Tool → Tool) → Type 0
KeepsMark g = (t : Tool) → (g t).metadata_sent ≡ t.metadata_sent

map-none : (g : Tool → Tool) (o : Option Tool) → Option.map g o ≡ none → o ≡ none
map-none g none e = refl
map-none g (some t) e = cc

heads_due-map :
    (g : Tool → Tool) (o : Option Tool)
    → Plain g
    → KeepsMark g
    → heads_due (Option.map g o) ≡ heads_due o
heads_due-map g none plain mark = refl
heads_due-map g (some t) plain mark = rw ((plain t).0, (plain t).1, mark t) refl

pub heads_due-set_at :
    (i j : ℕ) (g : Tool → Tool) (ts : List Tool)
    → Plain g
    → KeepsMark g
    → heads_due (get_elem? (set_at i g ts) j) ≡ heads_due (get_elem? ts j)
heads_due-set_at i j g ts plain mark = elim (Bool-cases (j == i)) [
  | inl here ↦ ap heads_due (set_here i j g ts here) ∙ heads_due-map g (get_elem? ts j) plain mark
  | inr there ↦ ap heads_due (set_there i j g ts there)
]

pub set_none :
    (i j : ℕ) (g : Tool → Tool) (ts : List Tool)
    → get_elem? (set_at i g ts) j ≡ none
    → get_elem? ts j ≡ none
set_none i j g ts e = elim (Bool-cases (j == i)) [
  | inl here ↦ map-none g (get_elem? ts j) (sym (set_here i j g ts here) ∙ e)
  | inr there ↦ sym (set_there i j g ts there) ∙ e
]
