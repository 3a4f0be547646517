-- ===== src/Chat/Called.antt =====
-- A final fragment brings the arguments of a tool call to the ones that it gives, and they stay
-- (internal/server/chat.go, addToolArguments and reconcileResponse).
use mathlib.Core.Option
use codex_sub_proxy.Prelude.{
  ℕ, ◌-◌, ◌≡◌, refl, sym, ap, ◌∙◌, subst, List, [], ◌∷◌, ◌++◌, Bool, true, false, ◌==◌, ltb, ◌||◌,
  not, length, get_elem?, Option, none, some, ok, arith, if◌then◌else◌, Bool-cases, inl, inr,
}
use codex_sub_proxy.Prelude.Bytes.{Bytes, is_blank, same, same-eq, prefix_split, append_nil}
use codex_sub_proxy.Chat.Types.{arguments_duplicated, arguments_too_large, invalid_arguments}
use codex_sub_proxy.Chat.Stream.{
  Chunk, Tool, Stream, M, ◌>>=◌, ◌>>◌, done, fail_when, lift, set_at, change_tool, with_tool,
  mark_emitted, mark_final, append_arguments, addition, write_tool_argument_suffix,
  add_tool_arguments,
}
use codex_sub_proxy.Chat.Output.{Formats, valid_chat_json, max_chat_arguments_bytes}
use codex_sub_proxy.Chat.Sent.{
  Ensures, then_Ensures, if_Ensures, fail_when-Ensures, guard_Ensures, lift_Ensures,
  with_tool-Ensures,
}
use codex_sub_proxy.Chat.Tools.{set_here, at_index}
use codex_sub_proxy.Chat.Announced.{suffix-Ensures}
use codex_sub_proxy.Chat.Frozen.{frozen, Frozen, elsewhere}

-- Tool `i` has the arguments `a`.
abbrev Holds : ℕ → Bytes → List Tool → Type 0
Holds i a ts = Option.map (λ (t : Tool). t.arguments) (get_elem? ts i) ≡ some a

here :
    (i : ℕ) (g : Tool → Tool) (ts : List Tool)
    → get_elem? (set_at i g ts) i ≡ Option.map g (get_elem? ts i)
here i g ts = set_here i i g ts (ground arith)

Holds-through :
    (i : ℕ) (a : Bytes) (g : Tool → Tool) (ts : List Tool)
    → ((t : Tool) → (g t).arguments ≡ t.arguments)
    → Holds i a ts
    → Holds i a (set_at i g ts)
Holds-through i a g ts keeps h =
    ap (Option.map (λ (t : Tool). t.arguments)) (here i g ts) ∙ arguments_of (get_elem? ts i) ∙ h
  where
    arguments_of :
        (o : Option Tool)
        → Option.map (λ (t : Tool). t.arguments) (Option.map g o)
          ≡ Option.map (λ (t : Tool). t.arguments) o
    arguments_of none = refl
    arguments_of (some t) = ap some (keeps t)

final_is : (i : ℕ) (a : Bytes) (ts : List Tool) → Holds i a ts → Frozen i a (set_at i mark_final ts)
final_is i a ts h = ap frozen (here i mark_final ts) ∙ marked (get_elem? ts i) h
  where
    marked :
        (o : Option Tool)
        → Option.map (λ (t : Tool). t.arguments) o ≡ some a
        → frozen (Option.map mark_final o) ≡ some a
    marked none e = cc
    marked (some t) e = e

-- What a final fragment adds leads to the fragment.
addition_lem :
    (current fragment more : Bytes)
    → is_blank fragment ≡ false
    → addition current fragment true ≡ ok more
    → current ++ more ≡ fragment
unfolding addition
addition_lem [] fragment more whole is = ground (arith, whole, is)
addition_lem (b ∷ bs) fragment more whole is = ground (
  arith,
  whole,
  is,
  same-eq (b ∷ bs) fragment,
  append_nil (b ∷ bs),
  prefix_split fragment (b ∷ bs),
)

module _ (f : Formats) (accepts : List Chunk → Chunk → Bool) where
  -- The steps of addToolArguments on a tool that is not final.
  abbrev ending : ℕ → Bool → M (Unit {0})
  ending j final =
      if not final
      then done
      else (change_tool j mark_final
          >> with_tool j λ u. fail_when (not (valid_chat_json f u.arguments)) invalid_arguments)

  abbrev growing : ℕ → Tool → Bytes → M (Unit {0})
  growing j t more =
      change_tool j (append_arguments more)
      >> (if t.metadata_sent then write_tool_argument_suffix f accepts j else done)

  abbrev adding : ℕ → Bytes → Bool → Tool → M (Unit {0})
  adding j fragment final t =
      fail_when
        (ltb max_chat_arguments_bytes (length fragment)
          || ltb (max_chat_arguments_bytes - length fragment) (length t.arguments))
        arguments_too_large
      >> (lift (addition t.arguments fragment final) >>= λ more.
          change_tool j (append_arguments more)
          >> ((if t.metadata_sent then write_tool_argument_suffix f accepts j else done)
              >> ending j final))

  -- What holds after addToolArguments, from what holds if the tool is final, what the new arguments
  -- lead to, and what the end makes of it.
  add-Ensures :
      (P Q : List Tool → Type 0) (j : ℕ) (fragment : Bytes) (final : Bool) (s : Stream)
      → ((t : Tool)
          → get_elem? s.tools j ≡ some t
          → t.final ≡ true
          → not (is_blank fragment || same t.arguments fragment) ≡ false
          → Q s.tools)
      → ((t : Tool) (more : Bytes)
          → get_elem? s.tools j ≡ some t
          → t.final ≡ false
          → addition t.arguments fragment final ≡ ok more
          → P (set_at j (append_arguments more) s.tools))
      → ((ts : List Tool) → P ts → P (set_at j mark_emitted ts))
      → ((r : Stream) → P r.tools → Ensures (λ _ r'. Q r'.tools) (ending j final r))
      → Ensures (λ _ r. Q r.tools) (add_tool_arguments f accepts j fragment final s)
  unfolding add_tool_arguments
  add-Ensures P Q j fragment final s over grown marks ends =
      with_tool-Ensures (λ _ r. Q r.tools) j
        (λ t.
          if t.final
          then fail_when (not (is_blank fragment || same t.arguments fragment)) arguments_duplicated
          else adding j fragment final t)
        s
        (λ t found.
          if_Ensures (λ _ r. Q r.tools) t.final
            (fail_when (not (is_blank fragment || same t.arguments fragment)) arguments_duplicated)
            (adding j fragment final t) s
            (λ is_final.
              fail_when-Ensures (λ _ r. Q r.tools)
                (not (is_blank fragment || same t.arguments fragment)) arguments_duplicated s
                (over t found is_final))
            (λ open_yet.
              guard_Ensures (λ _ r. Q r.tools)
                (ltb max_chat_arguments_bytes (length fragment)
                  || ltb (max_chat_arguments_bytes - length fragment) (length t.arguments))
                arguments_too_large
                (lift (addition t.arguments fragment final) >>= λ more.
                  change_tool j (append_arguments more)
                  >> ((if t.metadata_sent then write_tool_argument_suffix f accepts j else done)
                      >> ending j final))
                s
                (λ _.
                  then_Ensures (λ more r. (r ≡ s) × (addition t.arguments fragment final ≡ ok more))
                    (λ _ r. Q r.tools) (lift (addition t.arguments fragment final) s)
                    (λ more.
                      change_tool j (append_arguments more)
                      >> ((if t.metadata_sent then write_tool_argument_suffix f accepts j else done)
                          >> ending j final))
                    (lift_Ensures
                      (λ more r. (r ≡ s) × (addition t.arguments fragment final ≡ ok more))
                      (addition t.arguments fragment final) s (λ more is. (refl, is)))
                    (λ more r (at_s, is).
                      subst
                        (λ q.
                          Ensures (λ _ r'. Q r'.tools)
                            ((growing j t more >>= λ _. ending j final) q))
                        (sym at_s)
                        (then_Ensures (λ _ r'. P r'.tools) (λ _ r'. Q r'.tools) (growing j t more s)
                          (λ _. ending j final)
                          (if_Ensures (λ _ r'. P r'.tools) t.metadata_sent
                            (write_tool_argument_suffix f accepts j) done
                            (record s { tools = set_at j (append_arguments more) s.tools })
                            (λ _.
                              suffix-Ensures f accepts P j
                                (record s { tools = set_at j (append_arguments more) s.tools })
                                (marks (set_at j (append_arguments more) s.tools))
                                (grown t more found open_yet is))
                            (λ _. grown t more found open_yet is))
                          (λ _ r' h. ends r' h))))))

  end-Ensures :
      (Q : List Tool → Type 0) (j : ℕ) (final : Bool) (s : Stream)
      → (final ≡ false → Q s.tools)
      → (final ≡ true → Q (set_at j mark_final s.tools))
      → Ensures (λ _ r. Q r.tools) (ending j final s)
  end-Ensures Q j false s plain marked = plain refl
  end-Ensures Q j true s plain marked =
      let s' : Stream = record s { tools = set_at j mark_final s.tools } in
      with_tool-Ensures (λ _ r. Q r.tools) j
        (λ u. fail_when (not (valid_chat_json f u.arguments)) invalid_arguments) s'
        (λ u _.
          fail_when-Ensures (λ _ r. Q r.tools) (not (valid_chat_json f u.arguments))
            invalid_arguments s' (λ _. marked refl))

  other_tool :
      (i j : ℕ) (a : Bytes) (t : Tool) (ts : List Tool)
      → Frozen i a ts
      → get_elem? ts j ≡ some t
      → t.final ≡ false
      → (i == j) ≡ false
  other_tool i j a t ts h found open_yet = elim (Bool-cases (i == j)) [
    | inl same_one ↦ cc (
        sym h
        ∙ ap (λ k. frozen (get_elem? ts k)) (at_index i j same_one)
        ∙ ap frozen found
        ∙ not_final t open_yet)
    | inr other ↦ other
  ]
    where
      not_final : (u : Tool) → u.final ≡ false → frozen (some u) ≡ none
      not_final u e = rw e refl

  -- The arguments of another tool, or of this one if it is final, stay.
  pub add-Frozen :
      (i : ℕ) (a : Bytes) (j : ℕ) (fragment : Bytes) (final : Bool) (s : Stream)
      → Frozen i a s.tools
      → Ensures (λ _ r. Frozen i a r.tools) (add_tool_arguments f accepts j fragment final s)
  add-Frozen i a j fragment final s h =
      add-Ensures (λ ts. Frozen i a ts × ((i == j) ≡ false)) (Frozen i a) j fragment final s
        (λ t found is_final agrees. h)
        (λ t more found open_yet is.
          let other = other_tool i j a t s.tools h found open_yet in
          (elsewhere i j a (append_arguments more) s.tools other h, other))
        (λ ts (held, other). (elsewhere i j a mark_emitted ts other held, other))
        (λ r (held, other).
          end-Ensures (Frozen i a) j final r (λ _. held)
            (λ _. elsewhere i j a mark_final r.tools other held))

  pub final_tool : (t : Tool) → t.final ≡ true → frozen (some t) ≡ some t.arguments
  final_tool t e = rw e refl

  agreed :
      (t : Tool) (fragment : Bytes)
      → is_blank fragment ≡ false
      → not (is_blank fragment || same t.arguments fragment) ≡ false
      → t.arguments ≡ fragment
  agreed t fragment whole agrees = same-eq t.arguments fragment (ground (arith, whole, agrees))

  -- A final fragment gives the arguments of the tool.
  pub add-freezes :
      (j : ℕ) (fragment : Bytes) (s : Stream)
      → is_blank fragment ≡ false
      → Ensures (λ _ r. Frozen j fragment r.tools) (add_tool_arguments f accepts j fragment true s)
  add-freezes j fragment s whole =
      add-Ensures (Holds j fragment) (Frozen j fragment) j fragment true s
        (λ t found is_final agrees.
          ap frozen found ∙ final_tool t is_final ∙ ap some (agreed t fragment whole agrees))
        (λ t more found open_yet is.
          ap (Option.map (λ (u : Tool). u.arguments))
            (here j (append_arguments more) s.tools ∙ ap (Option.map (append_arguments more)) found)
          ∙ ap some (addition_lem t.arguments fragment more whole is))
        (λ ts held. Holds-through j fragment mark_emitted ts (λ t. refl) held)
        (λ r held.
          end-Ensures (Frozen j fragment) j true r (λ e. cc)
            (λ _. final_is j fragment r.tools held))
