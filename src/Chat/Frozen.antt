-- ===== src/Chat/Frozen.antt =====
-- The arguments of a tool call that is final stay as they are (internal/server/chat.go).
use mathlib.Core.Option
use codex_sub_proxy.Prelude.{
  ℕ, ◌≡◌, refl, sym, ap, ◌∙◌, List, [], ◌∷◌, ◌++◌, Bool, false, ◌==◌, ◌||◌, not, length, get_elem?,
  Option, none, some, if◌then◌else◌, Bool-cases, inl, inr,
}
use codex_sub_proxy.Prelude.Bytes.{Bytes, is_blank}
use codex_sub_proxy.Chat.Types.{invalid_tool_name}
use codex_sub_proxy.Chat.Stream.{
  tool_head, Chunk, Tool, Stream, ◌>>◌, done, fail_when, set_at, change_tool, mark_emitted,
  mark_metadata, add_alias, rename, identify, fresh_tool, output_tool, write_chunk,
  write_tool_metadata, write_tool_argument_suffix,
}
use codex_sub_proxy.Chat.Output.{Formats, valid_identifier}
use codex_sub_proxy.Chat.Sent.{
  get_elem?-length, Ensures, then_Ensures, if_Ensures, guard_Ensures, with_tool-Ensures,
}
use codex_sub_proxy.Chat.Streamed.{append_chunk, write_chunk-Ensures}
use codex_sub_proxy.Chat.Tools.{set_here, set_there, at_index, snoc_before}
use codex_sub_proxy.Chat.Announced.{suffix-Ensures}
use codex_sub_proxy.Chat.Finding.{either, Findable, output_tool-Ensures}

-- The arguments of a tool that is final.
abbrev pub frozen : Option Tool → Option Bytes
frozen none = none
frozen (some t) = if t.final then some t.arguments else none

-- Tool `i` is final with arguments `a`.
abbrev pub Frozen : ℕ → Bytes → List Tool → Type 0
Frozen i a ts = frozen (get_elem? ts i) ≡ some a

-- A change of a tool that keeps its arguments and whether it is final.
abbrev pub Gentle : (Tool → Tool) → Type 0
Gentle g = (t : Tool) → frozen (some (g t)) ≡ frozen (some t)

frozen-map : (g : Tool → Tool) (o : Option Tool) → Gentle g → frozen (Option.map g o) ≡ frozen o
frozen-map g none gentle = refl
frozen-map g (some t) gentle = gentle t

pub change-Frozen :
    (i j : ℕ) (a : Bytes) (g : Tool → Tool) (ts : List Tool)
    → Gentle g
    → Frozen i a ts
    → Frozen i a (set_at j g ts)
change-Frozen i j a g ts gentle h = elim (Bool-cases (i == j)) [
  | inl here ↦ ap frozen (set_here j i g ts here) ∙ frozen-map g (get_elem? ts i) gentle ∙ h
  | inr there ↦ ap frozen (set_there j i g ts there) ∙ h
]

pub elsewhere :
    (i j : ℕ) (a : Bytes) (g : Tool → Tool) (ts : List Tool)
    → (i == j) ≡ false
    → Frozen i a ts
    → Frozen i a (set_at j g ts)
elsewhere i j a g ts there h = ap frozen (set_there j i g ts there) ∙ h

new-Frozen :
    (i : ℕ) (a : Bytes) (u : Tool) (ts : List Tool) → Frozen i a ts → Frozen i a (ts ++ u ∷ [])
new-Frozen i a u ts h = elim (Bool-cases (i == length ts)) [
  | inl last ↦ cc (
      sym (ap frozen (get_elem?-length ts))
      ∙ ap (λ k. frozen (get_elem? ts k)) (sym (at_index i (length ts) last))
      ∙ h)
  | inr before ↦ ap frozen (snoc_before ts u i before) ∙ h
]

rename-Gentle : (name : Bytes) → Gentle (rename name)
rename-Gentle name t =
    either (λ u. frozen (some u) ≡ frozen (some t)) (is_blank name) t (record t { name = name })
      refl refl

identify-Gentle : (call_id item_id : Bytes) → Gentle (identify call_id item_id)
identify-Gentle call_id item_id t =
    either (λ u. frozen (some u) ≡ frozen (some t)) (is_blank t.id)
      (record t { id = if is_blank call_id then item_id else call_id }) t refl refl

module _ (i : ℕ) (a : Bytes) where
  alias-Frozen :
      (id : Bytes) (j : ℕ) (s : Stream) → Frozen i a s.tools → Frozen i a (add_alias id j s).tools
  alias-Frozen id j s h =
      either (λ (r : Stream). Frozen i a r.tools) (is_blank id) s
        (record s { aliases = (id, j) ∷ s.aliases }) h h

  Frozen-Findable : Findable (λ s. Frozen i a s.tools)
  Frozen-Findable = record {
    aliased = alias-Frozen;
    renamed = λ j name s. change-Frozen i j a (rename name) s.tools (rename-Gentle name);
    identified = λ j name call_id item_id s.
        change-Frozen i j a (λ t. identify call_id item_id (rename name t)) s.tools
          (λ t. identify-Gentle call_id item_id (rename name t) ∙ rename-Gentle name t);
    added = λ item_id call_id name s. new-Frozen i a (fresh_tool item_id call_id name) s.tools;
  }

  -- outputTool
  pub output_tool-Frozen :
      (id name : Bytes) (s : Stream)
      → Frozen i a s.tools
      → Ensures (λ _ r. Frozen i a r.tools) (output_tool id name s)
  output_tool-Frozen = output_tool-Ensures (λ s. Frozen i a s.tools) Frozen-Findable

  -- writeToolMetadata
  pub metadata-Frozen :
      (f : Formats) (accepts : List Chunk → Chunk → Bool) (j : ℕ) (s : Stream)
      → Frozen i a s.tools
      → Ensures (λ _ r. Frozen i a r.tools) (write_tool_metadata f accepts j s)
  unfolding write_tool_metadata append_chunk
  metadata-Frozen f accepts j s h =
      with_tool-Ensures (λ _ r. Frozen i a r.tools) j
        (λ t.
          if t.metadata_sent || is_blank t.id || is_blank t.name
          then done
          else (fail_when (not (valid_identifier t.name 64)) invalid_tool_name
              >> (change_tool j mark_metadata
                  >> (write_chunk f accepts (tool_head j t.id t.name)
                      >> write_tool_argument_suffix f accepts j))))
        s
        (λ t found.
          if_Ensures (λ _ r. Frozen i a r.tools)
            (t.metadata_sent || is_blank t.id || is_blank t.name) done
            (fail_when (not (valid_identifier t.name 64)) invalid_tool_name
              >> (change_tool j mark_metadata
                  >> (write_chunk f accepts (tool_head j t.id t.name)
                      >> write_tool_argument_suffix f accepts j)))
            s (λ _. h)
            (λ _.
              guard_Ensures (λ _ r. Frozen i a r.tools) (not (valid_identifier t.name 64))
                invalid_tool_name
                (change_tool j mark_metadata
                  >> (write_chunk f accepts (tool_head j t.id t.name)
                      >> write_tool_argument_suffix f accepts j))
                s
                (λ _.
                  then_Ensures (λ _ r. Frozen i a r.tools) (λ _ r. Frozen i a r.tools)
                    (write_chunk f accepts (tool_head j t.id t.name)
                      (record s { tools = set_at j mark_metadata s.tools }))
                    (λ _. write_tool_argument_suffix f accepts j)
                    (write_chunk-Ensures accepts f [] (λ r. Frozen i a r.tools)
                      (tool_head j t.id t.name)
                      (record s { tools = set_at j mark_metadata s.tools })
                      (change-Frozen i j a mark_metadata s.tools (λ u. refl) h))
                    (λ _ r h'.
                      suffix-Ensures f accepts (Frozen i a) j r
                        (change-Frozen i j a mark_emitted r.tools (λ u. refl)) h'))))
