-- ===== src/Chat/Finding.antt =====
-- What finding the tool of a call keeps (internal/server/chat.go, tool and outputTool): whatever its
-- four steps keep.
use codex_sub_proxy.Prelude.{ℕ, Bool, true, false, ◌&&◌, length, none, some, if◌then◌else◌}
use codex_sub_proxy.Prelude.Bytes.{Bytes, is_blank}
use codex_sub_proxy.Chat.Stream.{
  Stream, M, ◌>>◌, give, update, set_at, change_tool, add_alias, rename, identify, one_tool,
  alias_unless_blank, tool_with_id, open_tool_named, new_tool, last_tool, tool, output_tool,
}
use codex_sub_proxy.Chat.Sent.{Ensures, if_Ensures, option_Ensures}

pub either : {A : Type 0} (P : A → Type 0) (b : Bool) (t u : A) → P t → P u → P (if b then t else u)
either P true t u p q = p
either P false t u p q = q

-- What the steps keep: a new alias, a name, an id and a new tool.
pub record Findable (P : Stream → Type 0) : Type 0 where
  pub aliased : (id : Bytes) (i : ℕ) (s : Stream) → P s → P (add_alias id i s)
  pub renamed :
      (i : ℕ) (name : Bytes) (s : Stream)
      → P s
      → P (record s { tools = set_at i (rename name) s.tools })
  pub identified :
      (i : ℕ) (name call_id item_id : Bytes) (s : Stream)
      → P s
      → P (record s { tools = set_at i (λ t. identify call_id item_id (rename name t)) s.tools })
  pub added :
      (item_id call_id name : Bytes) (s : Stream) → P s → P (new_tool item_id call_id name s)

module _ (P : Stream → Type 0) (rules : Findable P) where
  last_tool-Ensures :
      (item_id call_id name : Bytes) (s : Stream)
      → P s
      → Ensures (λ _. P) (last_tool item_id call_id name s)
  unfolding last_tool
  last_tool-Ensures item_id call_id name s h =
      if_Ensures (λ _. P) (is_blank item_id && is_blank call_id && one_tool s.tools)
        (change_tool 0 (rename name) >> give 0)
        (update (new_tool item_id call_id name)
          >> (update (add_alias item_id (length s.tools))
              >> (update (add_alias call_id (length s.tools)) >> give (length s.tools))))
        s (λ _. rules.renamed 0 name s h)
        (λ _.
          rules.aliased call_id (length s.tools)
            (add_alias item_id (length s.tools) (new_tool item_id call_id name s))
            (rules.aliased item_id (length s.tools) (new_tool item_id call_id name s)
              (rules.added item_id call_id name s h)))

  -- `tool` and outputTool.
  pub tool-Ensures :
      (item_id call_id name : Bytes) (s : Stream)
      → P s
      → Ensures (λ _. P) (tool item_id call_id name s)
  unfolding tool
  tool-Ensures item_id call_id name s h =
      option_Ensures (λ _. P) (alias_unless_blank item_id s.aliases)
        (λ i.
          update (add_alias call_id i)
          >> (change_tool i (λ t. identify call_id item_id (rename name t)) >> give i))
        (λ r.
          (elim (alias_unless_blank call_id s.aliases) as (λ _. M ℕ) [
            | some i ↦ update (add_alias item_id i) >> (change_tool i (rename name) >> give i)
            | none ↦ last_tool item_id call_id name
          ])
            r)
        s
        (λ i.
          rules.identified i name call_id item_id (add_alias call_id i s)
            (rules.aliased call_id i s h))
        (option_Ensures (λ _. P) (alias_unless_blank call_id s.aliases)
          (λ i. update (add_alias item_id i) >> (change_tool i (rename name) >> give i))
          (last_tool item_id call_id name) s
          (λ i. rules.renamed i name (add_alias item_id i s) (rules.aliased item_id i s h))
          (last_tool-Ensures item_id call_id name s h))

  pub output_tool-Ensures :
      (id name : Bytes) (s : Stream) → P s → Ensures (λ _. P) (output_tool id name s)
  unfolding output_tool
  output_tool-Ensures id name s h =
      option_Ensures (λ _. P) (tool_with_id id 0 s.tools) give
        (λ r.
          (elim (open_tool_named name 0 s.tools) as (λ _. M ℕ) [
            | some i ↦ give i
            | none ↦ tool id id name
          ])
            r)
        s (λ _. h)
        (option_Ensures (λ _. P) (open_tool_named name 0 s.tools) give (tool id id name) s (λ _. h)
          (tool-Ensures id id name s h))
